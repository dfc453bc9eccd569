-- ===== src/Api/Login.antt =====
-- The guard against guessed passwords, Allow and Fail of internal/api/auth.go, and the ranks of the
-- roles (internal/store/models.go). Times are whole numbers of nanoseconds; the time of a call is an
-- argument.
mod Tests
pub mod Window
use portguard_v.Base.{
  ℕ, ◌-◌, Bool, true, false, not, ◌||◌, List, [], ◌∷◌, ◌++◌, Option, none, some, Text, codes, eqb,
  length, if◌then◌else◌, ltb,
}
use portguard_v.Base.Maps.{Map, lookup, insert, delete}
use mathlib.Core.List.{filter_map}

abbrev pub Failures : Type 0
Failures = Map (List ℕ)

abbrev pub times : Option (List ℕ) → List ℕ
times none = []
times (some ts) = ts

-- The failures of the last minute.
unfoldable pub recent : ℕ → List ℕ → List ℕ
recent now [] = []
recent now (t ∷ ts) =
    let rest = recent now ts in if ltb (now - t) 60000000000 then t ∷ rest else rest

abbrev pub no_times : List ℕ → Bool
no_times [] = true
no_times (t ∷ ts) = false

unfoldable pub allow : Text → ℕ → Failures → Bool × Failures
unfolding recent
allow ip now f =
    let r = recent now (times (lookup ip f)) in
    (ltb (length r) 5, if no_times r then delete ip f else insert ip r f)

unfoldable pub fail : Text → ℕ → Failures → Failures
fail ip now f = insert ip (times (lookup ip f) ++ now ∷ []) f

unfoldable pub valid_role : Text → Bool
valid_role r =
    eqb r (codes "owner")
    || eqb r (codes "admin")
    || eqb r (codes "operator")
    || eqb r (codes "viewer")

unfoldable pub role_rank : Text → ℕ
role_rank r =
    if eqb r (codes "owner")
    then 4
    else if eqb r (codes "admin")
    then 3
    else if eqb r (codes "operator")
    then 2
    else if eqb r (codes "viewer")
    then 1
    else 0

-- Whether RequireRole lets a role through; `none` is a request without a role.
unfoldable pub require_role : Text → Option Text → Bool
unfolding role_rank
require_role min none = not (ltb (role_rank (codes "viewer")) (role_rank min))
require_role min (some role) = not (ltb (role_rank role) (role_rank min))
