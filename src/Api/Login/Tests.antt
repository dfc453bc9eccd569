-- ===== src/Api/Login/Tests.antt =====
-- Runs of the login guard (internal/api/auth.go).
use portguard_v.Base.{
  ℕ, ◌*◌, ◌≡◌, refl, true, false, List, [], ◌∷◌, none, Text, codes, eqb, length, ltb, arith,
}
use portguard_v.Base.Maps.{lookup, insert, delete}
use portguard_v.Api.Login.{allow, fail, recent, require_role, role_rank, valid_role}
use portguard_v.Api.Login.Window.{Event, fails, run, history, allow-history}

abbrev second : ℕ
second = 1000000000

abbrev home : Text
home = codes "10.0.0.1"

-- Five failures in a row.
abbrev five : List Event
five =
    fails home (5 * second)
    ∷ fails home (4 * second)
    ∷ fails home (3 * second)
    ∷ fails home (2 * second)
    ∷ fails home second
    ∷ []

-- What the guard computes with.
guard : Unit {0}
unfolding allow fail recent lookup insert delete eqb run require_role role_rank valid_role
guard = tt

shut_out : (allow home (6 * second) (run five)).0 ≡ false
unfolding guard
shut_out = refl

let_in_again : (allow home (62 * second) (run five)).0 ≡ true
unfolding guard
let_in_again = refl

viewer_may_not_deploy : require_role (codes "operator") none ≡ false
unfolding guard
viewer_may_not_deploy = refl

allow-history_example :
    (allow home (6 * second) (run five)).0
    ≡ ltb (length (recent (6 * second) (history home five))) 5
allow-history_example =
    allow-history home (6 * second) five
      (omega arith, (omega arith, (omega arith, (omega arith, (omega arith, tt)))))
