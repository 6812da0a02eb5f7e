-- ===== src/Client/Kinds.antt =====
-- The functions and the responses of one kind of requests, among those that the client of
-- sandstorm/src/sandstorm.rs keeps.
use dust_devil.Base.{
  ℕ, ◌≡◌, refl, sym, ap, ◌∙◌, true, Option, none, some, List, [], ◌∷◌, ◌++◌, append_assoc,
  append-nil, length, if◌then◌else◌, arith, Bool-cases, inl, inr,
}
use dust_devil.Protocol.Commands.{SandstormCommandType, command_to_u8, command_of_u8}
use dust_devil.Protocol.Responses.{Response}
use dust_devil.Client.{same_command, command_of_response, ResponseHandlers}

decoded : (c : SandstormCommandType) → command_of_u8 (command_to_u8 c) ≡ some c
unfolding command_of_u8 command_to_u8
decoded SandstormCommandType.shutdown = refl
decoded _ = refl

command_or : Option SandstormCommandType → SandstormCommandType
command_or (some c) = c
command_or none = SandstormCommandType.meow

same_command-eq : (c d : SandstormCommandType) → same_command c d ≡ true → c ≡ d
unfolding same_command command_or
same_command-eq c d h =
    let e : command_to_u8 c ≡ command_to_u8 d = ground (arith, h) in
    ap command_or (sym (decoded c) ∙ ap command_of_u8 e ∙ decoded d)

-- The functions called for a kind of requests, and the responses they were called with.
unfoldable pub called_for : SandstormCommandType → List (ℕ × Response) → List ℕ
called_for c [] = []
called_for c ((f, r) ∷ calls) =
    let rest = called_for c calls in
    if same_command (command_of_response r) c then f ∷ rest else rest

unfoldable pub answered_for : SandstormCommandType → List (ℕ × Response) → List Response
answered_for c [] = []
answered_for c ((f, r) ∷ calls) =
    let rest = answered_for c calls in
    if same_command (command_of_response r) c then r ∷ rest else rest

pub called_for-last :
    (c : SandstormCommandType) (calls : List (ℕ × Response)) (f : ℕ) (r : Response)
    → called_for c (calls ++ (f, r) ∷ [])
      ≡ called_for c calls ++ (if same_command (command_of_response r) c then f ∷ [] else [])
unfolding called_for
called_for-last c [] f r = refl
called_for-last c ((g, q) ∷ calls) f r = ground (arith, called_for-last c calls f r)

pub answered_for-last :
    (c : SandstormCommandType) (calls : List (ℕ × Response)) (f : ℕ) (r : Response)
    → answered_for c (calls ++ (f, r) ∷ [])
      ≡ answered_for c calls ++ (if same_command (command_of_response r) c then r ∷ [] else [])
unfolding answered_for
answered_for-last c [] f r = refl
answered_for-last c ((g, q) ∷ calls) f r = ground (arith, answered_for-last c calls f r)

pub asked_queue :
    (queue : SandstormCommandType → List ℕ) (d c : SandstormCommandType) (f : ℕ)
    → (if same_command d c then queue d ++ f ∷ [] else queue c)
      ≡ queue c ++ (if same_command d c then f ∷ [] else [])
asked_queue queue d c f = elim (Bool-cases (same_command d c)) [
  | inl same ↦ rw (same, ap queue (same_command-eq d c same))
  | inr other ↦ rw (other, append-nil)
]

pub taken_queue :
    (queue : SandstormCommandType → List ℕ) (d c : SandstormCommandType) (f : ℕ) (q called : List ℕ)
    → queue d ≡ f ∷ q
    → (called ++ (if same_command d c then f ∷ [] else []))
        ++ (if same_command d c then q else queue c)
      ≡ called ++ queue c
taken_queue queue d c f q called e = elim (Bool-cases (same_command d c)) [
  | inl same ↦
      (rw (same, append_assoc)
        (ap (λ z. called ++ z) (sym e ∙ ap queue (same_command-eq d c same))))
  | inr other ↦ rw (other, append-nil)
]

length-called_for :
    (c : SandstormCommandType) (calls : List (ℕ × Response))
    → length (called_for c calls) ≡ length (answered_for c calls)
unfolding called_for answered_for
length-called_for c [] = refl
length-called_for c ((f, r) ∷ calls) = ground (arith, length-called_for c calls)

-- The functions of a kind, called or still waiting.
abbrev pub waiting_or_called : SandstormCommandType → ResponseHandlers → List ℕ
waiting_or_called c h = called_for c h.calls ++ h.queue c

pub all_called :
    (c : SandstormCommandType) (calls : List (ℕ × Response)) (q : List ℕ)
    → q ≡ []
    → length ((called_for c calls ++ q) ++ []) ≡ length (answered_for c calls ++ [])
all_called c calls q e =
    ap length (append-nil (called_for c calls ++ q))
    ∙ ap (λ z. length (called_for c calls ++ z)) e
    ∙ ap length (append-nil (called_for c calls))
    ∙ length-called_for c calls
    ∙ ap length (sym (append-nil (answered_for c calls)))

pub grown :
    {A : Type 0}
    → {seen all : List A} (old first rest : List A) → seen ≡ old ++ first
    → all ≡ first ++ rest
    → seen ++ rest ≡ old ++ all
grown old first rest m e =
    ap (λ z. z ++ rest) m ∙ append_assoc old first rest ∙ ap (λ z. old ++ z) (sym e)
