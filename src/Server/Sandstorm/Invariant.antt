-- ===== src/Server/Sandstorm/Invariant.antt =====
-- The shared state of dust-devil/src/context.rs under the requests of sandstorm/request_handler.rs.
use mathlib.Core.Path.{subst}
use dust_devil.Base.{
  ℕ, ◌+◌, ◌^◌, ◌≤◌, ◌<◌, ◌≡◌, refl, sym, ap, Bool, true, false, Option, none, some, List, [], ◌∷◌,
  length, arith, ◌==◌, Bool-cases, inl, inr,
}
use dust_devil.Io.{Text}
use dust_devil.Protocol.Users.{UserRole}
use dust_devil.Protocol.Requests.{Request}
use dust_devil.Serialize.Containers.{Result, ok, err}
use dust_devil.Server.Users.{UserManager, insert, update, delete}
use dust_devil.Server.Users.Laws.{IsValid}
use dust_devil.Server.Users.Runs.{
  Change, inserting, updating, deleting, change, change_grows, change-IsValid,
}
use dust_devil.Server.Context
use dust_devil.Server.Context.{
  World, ServerState, added, has_refused, user_updated, user_deleted, toggle_auth_method,
  set_buffer_size,
}
use dust_devil.Server.Sandstorm.{Session, run_command}
use dust_devil.Server.Sandstorm.Laws.{run_commands}

-- The users have one entry each and are counted rightly, one is an administrator, and the buffers
-- have room for a byte.
pub record IsSound (w : ServerState) : Type 0 where
  pub users_valid : IsValid w.users
  pub has_admin : 1 ≤ w.users.admin_count
  pub buffers : 1 ≤ w.buffer_size

-- From one state to a sound one with one administrator more at most.
record Keeps (v w : ServerState) : Type 0 where
  sound : IsSound w
  grows : w.users.admin_count ≤ v.users.admin_count + 1

same_state : (v : ServerState) → IsSound v → Keeps v v
same_state v h = record { sound = h; grows = omega arith }

-- The state after a change of the users alone.
changed :
    (c : Change) (v w : ServerState)
    → w.users ≡ change c v.users
    → w.buffer_size ≡ v.buffer_size
    → v.users.admin_count + 1 < 2 ^ 32
    → IsSound v
    → Keeps v w
changed c v w e q b h =
    let k = change-IsValid c v.users b h.users_valid in
    let g = change_grows c v.users h.users_valid in
    record {
      sound = record {
        users_valid = subst IsValid (sym e) k.0;
        has_admin = omega (arith, k.1 h.has_admin, ap (λ m. m.admin_count) e);
        buffers = omega (arith, q, h.buffers);
      };
      grows = omega (arith, g, ap (λ m. m.admin_count) e);
    }

added_state :
    (id : ℕ) (u : Text) (r : UserRole) (p : Bool × UserManager) (w : World)
    → ((added id u r p w).1.state.users ≡ p.1)
      × ((added id u r p w).1.state.buffer_size ≡ w.state.buffer_size)
unfolding added
added_state id u r (true, m) w = (refl, refl)
added_state id u r (false, m) w = (refl, refl)

updated_state :
    (id : ℕ) (u : Text) (g : Bool) (p : Result (Option UserRole) Unit × UserManager) (w : World)
    → ((user_updated id u g p w).1.state.users ≡ p.1)
      × ((user_updated id u g p w).1.state.buffer_size ≡ w.state.buffer_size)
unfolding user_updated
updated_state id u g (ok (some r), m) w = (refl, refl)
updated_state id u g (ok none, m) w = (refl, refl)
updated_state id u g (err x, m) w = (refl, refl)

deleted_state :
    (id : ℕ) (p : Result (Option (Text × UserRole)) Unit × UserManager) (w : World)
    → ((user_deleted id p w).1.state.users ≡ p.1)
      × ((user_deleted id p w).1.state.buffer_size ≡ w.state.buffer_size)
unfolding user_deleted
deleted_state id (ok (some (n, r)), m) w = (refl, refl)
deleted_state id (ok none, m) w = (refl, refl)
deleted_state id (err x, m) w = (refl, refl)

add_user-Keeps :
    (id : ℕ) (u p : Text) (r : UserRole) (w : World)
    → w.state.users.admin_count + 1 < 2 ^ 32
    → IsSound w.state
    → Keeps w.state (Context.add_user id u p r w).1.state
unfolding Context.add_user change
add_user-Keeps id u p r w b h = elim (Bool-cases (has_refused u)) [
  | inl e ↦ simp e (same_state w.state h)
  | inr e ↦
      let s = added_state id u r (insert u p r w.state.users) w in
      simp e (changed (inserting u p r) w.state _ s.0 s.1 b h)
]

update_user-Keeps :
    (id : ℕ) (u : Text) (p : Option Text) (r : Option UserRole) (w : World)
    → w.state.users.admin_count + 1 < 2 ^ 32
    → IsSound w.state
    → Keeps w.state (Context.update_user id u p r w).1.state
unfolding Context.update_user change
update_user-Keeps id u none none w b h = same_state w.state h
update_user-Keeps id u (some p) r w b h =
    let s = updated_state id u true (update u (some p) r w.state.users) w in
    changed (updating u (some p) r) w.state _ s.0 s.1 b h
update_user-Keeps id u none (some r) w b h =
    let s = updated_state id u false (update u none (some r) w.state.users) w in
    changed (updating u none (some r)) w.state _ s.0 s.1 b h

delete_user-Keeps :
    (id : ℕ) (u : Text) (w : World)
    → w.state.users.admin_count + 1 < 2 ^ 32
    → IsSound w.state
    → Keeps w.state (Context.delete_user id u w).1.state
unfolding Context.delete_user change
delete_user-Keeps id u w b h =
    let s = deleted_state id (delete u w.state.users) w in
    changed (deleting u) w.state _ s.0 s.1 b h

set_buffer_size-Keeps :
    (id n : ℕ) (w : World) → IsSound w.state → Keeps w.state (set_buffer_size id n w).1.state
unfolding set_buffer_size
set_buffer_size-Keeps id n w h = elim (Bool-cases (n == 0)) [
  | inl e ↦ simp e (same_state w.state h)
  | inr e ↦ simp e (record {
    sound = record {
      users_valid = h.users_valid;
      has_admin = h.has_admin;
      buffers = ground (arith, e);
    };
    grows = omega arith;
  })
]

run_command-Keeps :
    (r : Request) (s : Session)
    → s.world.state.users.admin_count + 1 < 2 ^ 32
    → IsSound s.world.state
    → Keeps s.world.state (run_command r s).world.state
unfolding run_command toggle_auth_method
run_command-Keeps (Request.add_user u p r) s b h = add_user-Keeps s.manager_id u p r s.world b h
run_command-Keeps (Request.update_user u p r) s b h =
    update_user-Keeps s.manager_id u p r s.world b h
run_command-Keeps (Request.delete_user u) s b h = delete_user-Keeps s.manager_id u s.world b h
run_command-Keeps (Request.set_buffer_size n) s b h = set_buffer_size-Keeps s.manager_id n s.world h
run_command-Keeps (Request.toggle_auth_method m x) s b h = record {
  sound = record { users_valid = h.users_valid; has_admin = h.has_admin; buffers = h.buffers };
  grows = omega arith;
}
run_command-Keeps r s b h = same_state s.world.state h

-- Whatever requests a session runs, the shared state stays sound: an administrator is left, the
-- counter is right and the buffer size is not 0, as long as the counter has room for one more
-- administrator with every request.
pub run_commands-IsSound :
    (rs : List Request) (s : Session)
    → s.world.state.users.admin_count + length rs < 2 ^ 32
    → IsSound s.world.state
    → IsSound (run_commands rs s).world.state
unfolding run_commands
run_commands-IsSound [] s b h = h
run_commands-IsSound (r ∷ rs) s b h =
    let k = run_command-Keeps r s (omega (arith, b)) h in
    run_commands-IsSound rs (run_command r s) (omega (arith, b, k.grows)) k.sound
