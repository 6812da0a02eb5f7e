-- ===== src/Server/Loop/Numbers.antt =====
-- The ids that the main loop of dust-devil/src/server.rs gives.
use dust_devil.Base.{
  ℕ, zero, suc, ◌+◌, ◌^◌, ◌≤◌, ◌<◌, ◌≡◌, refl, sym, ap, ◌∙◌, Bool, true, false, List, [], ◌∷◌, ◌++◌,
  append-nil, length, arith,
}
use dust_devil.Io.{Error}
use dust_devil.Serialize.Containers.{Result, ok, err}
use dust_devil.Server.Sandstorm.{MessageType}
use dust_devil.Server.Loop.{
  Listener, Task, client, manager, Server, handle_message, Wake, socks_accepted, sandstorm_accepted,
  message, ctrl_c, turn, main_loop,
}

-- The ids of the clients' tasks and of the managers', in their order.
unfoldable pub client_ids : List Task → List ℕ
client_ids [] = []
client_ids (client id ∷ ts) = id ∷ client_ids ts
client_ids (manager id ∷ ts) = client_ids ts

unfoldable pub manager_ids : List Task → List ℕ
manager_ids [] = []
manager_ids (client id ∷ ts) = manager_ids ts
manager_ids (manager id ∷ ts) = id ∷ manager_ids ts

client_ids-append : (xs ys : List Task) → client_ids (xs ++ ys) ≡ client_ids xs ++ client_ids ys
unfolding client_ids
client_ids-append [] ys = refl
client_ids-append (client id ∷ ts) ys = ap (λ t. id ∷ t) (client_ids-append ts ys)
client_ids-append (manager id ∷ ts) ys = client_ids-append ts ys

manager_ids-append : (xs ys : List Task) → manager_ids (xs ++ ys) ≡ manager_ids xs ++ manager_ids ys
unfolding manager_ids
manager_ids-append [] ys = refl
manager_ids-append (manager id ∷ ts) ys = ap (λ t. id ∷ t) (manager_ids-append ts ys)
manager_ids-append (client id ∷ ts) ys = manager_ids-append ts ys

-- `n`, `n + 1` and so on.
abbrev pub count_up : (n : ℕ) → ℕ → List ℕ
count_up n zero = []
count_up n (suc k) = n ∷ count_up (n + 1) k

count_up-last : (n k : ℕ) → count_up n (suc k) ≡ count_up n k ++ (n + k) ∷ []
count_up-last n zero = ap (λ m. m ∷ []) (omega arith)
count_up-last n (suc k) =
    ap (λ t. n ∷ t) (count_up-last (n + 1) k ∙ ap (λ m. count_up (n + 1) k ++ m ∷ []) (omega arith))

-- The tasks are numbered from 1 on, and each counter is the number of the next.
pub record IsNumbered (s : Server) : Type 0 where
  pub clients : ℕ
  pub managers : ℕ
  pub client_tasks : client_ids s.tasks ≡ count_up 1 clients
  pub manager_tasks : manager_ids s.tasks ≡ count_up 1 managers
  pub next_client : s.client_id_counter ≡ 1 + clients
  pub next_manager : s.manager_id_counter ≡ 1 + managers

-- How many tasks were started.
abbrev started : {s : Server} → IsNumbered s → ℕ
started n = n.clients + n.managers

Same : (s t : Server) → Type 0
Same s t =
    (t.tasks ≡ s.tasks)
    × (t.client_id_counter ≡ s.client_id_counter)
    × (t.manager_id_counter ≡ s.manager_id_counter)

handle_message-Same :
    (m : MessageType) (b : Result Listener Error) (s : Server) → Same s (handle_message m b s).0
unfolding handle_message Same
handle_message-Same MessageType.shutdown_request b s = (refl, refl, refl)
handle_message-Same MessageType.list_socks5_sockets b s = (refl, refl, refl)
handle_message-Same (MessageType.add_socks5_socket a) b s = (refl, refl, refl)
handle_message-Same (MessageType.remove_socks5_socket a) b s = (refl, refl, refl)
handle_message-Same MessageType.list_sandstorm_sockets b s = (refl, refl, refl)
handle_message-Same (MessageType.add_sandstorm_socket a) b s = (refl, refl, refl)
handle_message-Same (MessageType.remove_sandstorm_socket a) b s = (refl, refl, refl)

-- Numbered tasks, one more at most than there were.
Grows : ℕ → Server → Type 0
Grows k t = (n : IsNumbered t) × (started n ≤ k + 1)

Same-Grows : (s t : Server) → Same s t → (n : IsNumbered s) → Grows (started n) t
unfolding Same Grows
Same-Grows s t e n = (
  record {
    clients = n.clients;
    managers = n.managers;
    client_tasks = ap client_ids e.0 ∙ n.client_tasks;
    manager_tasks = ap manager_ids e.0 ∙ n.manager_tasks;
    next_client = e.1 ∙ n.next_client;
    next_manager = e.2 ∙ n.next_manager;
  },
  omega arith,
)

turn-Grows :
    (w : Wake) (s : Server) (n : IsNumbered s)
    → started n + 2 < 2 ^ 64
    → Grows (started n) (turn w s).0
unfolding turn Grows client_ids manager_ids Same
turn-Grows (socks_accepted (ok a)) s n b = (
  record {
    clients = suc n.clients;
    managers = n.managers;
    client_tasks =
        client_ids-append s.tasks (client s.client_id_counter ∷ [])
        ∙ (λ i. n.client_tasks i ++ n.next_client i ∷ [])
        ∙ sym (count_up-last 1 n.clients);
    manager_tasks =
        manager_ids-append s.tasks (client s.client_id_counter ∷ [])
        ∙ append-nil (manager_ids s.tasks)
        ∙ n.manager_tasks;
    next_client = omega (arith, n.next_client, b);
    next_manager = n.next_manager;
  },
  omega arith,
)
turn-Grows (sandstorm_accepted (ok a)) s n b = (
  record {
    clients = n.clients;
    managers = suc n.managers;
    client_tasks =
        client_ids-append s.tasks (manager s.manager_id_counter ∷ [])
        ∙ append-nil (client_ids s.tasks)
        ∙ n.client_tasks;
    manager_tasks =
        manager_ids-append s.tasks (manager s.manager_id_counter ∷ [])
        ∙ (λ i. n.manager_tasks i ++ n.next_manager i ∷ [])
        ∙ sym (count_up-last 1 n.managers);
    next_client = n.next_client;
    next_manager = omega (arith, n.next_manager, b);
  },
  omega arith,
)
turn-Grows (socks_accepted (err (l, e))) s n b =
    Same-Grows s (turn (socks_accepted (err (l, e))) s).0 (refl, refl, refl) n
turn-Grows (sandstorm_accepted (err (l, e))) s n b =
    Same-Grows s (turn (sandstorm_accepted (err (l, e))) s).0 (refl, refl, refl) n
turn-Grows (message m r) s n b = Same-Grows s (handle_message m r s).0 (handle_message-Same m r s) n
turn-Grows ctrl_c s n b = Same-Grows s (turn ctrl_c s).0 (refl, refl, refl) n

-- The main loop numbers its clients, and its managers, 1, 2, 3 and so on in the order in which it
-- accepts them, while it wakes up fewer than 2 ^ 64 times: no two have the same id.
pub main_loop-IsNumbered :
    (ws : List Wake) (s : Server) (n : IsNumbered s)
    → n.clients + n.managers + length ws + 1 < 2 ^ 64
    → IsNumbered (main_loop ws s).0
unfolding main_loop Grows
main_loop-IsNumbered [] s n b = n
main_loop-IsNumbered (w ∷ ws) s n b =
    let (m, le) = turn-Grows w s n (omega (arith, b)) in
    by_test (turn w s).1 (main_loop-IsNumbered ws (turn w s).0 m (omega (arith, b, le))) m
  where
    by_test :
        (t : Bool)
        → IsNumbered (main_loop ws (turn w s).0).0
        → IsNumbered (turn w s).0
        → let r : Server × Bool = elim t [
          | true ↦ main_loop ws (turn w s).0
          | false ↦ ((turn w s).0, true)
        ] in
          IsNumbered r.0
    by_test true h k = h
    by_test false h k = k
