-- ===== src/RateLimiter.antt =====
-- src/ezauth/ratelimiter.py: fixed-window counters. A limiter's windows are the pairs of seconds
-- and maximal count that `parse_limits` returns.
pub mod Windows
use Prim.Native.String.{◌++◌ as ◌<>◌}
use ezauth.Prelude.{
  ℕ, zero, suc, ◌+◌, ◌-◌, String, Bool, true, false, Option, none, some, List, [], ◌∷◌, ◌==◌,
  string_eq, ltb, if◌then◌else◌,
}
use ezauth.Platform.{Platform}
use ezauth.Redis.{Redis, Entry, counted, write, get}

pub record RateLimiter : Type 0 where
  pub limits : List (ℕ × ℕ)
  pub user_id : String
  pub namespace : String

-- ":".join(["rl"] + ([namespace] if namespace else []) + [user_id, str(window_size)])
unfoldable pub get_key : Platform → RateLimiter → ℕ → String
get_key sys l window_size =
    (if l.namespace == "" then "rl:" else "rl:" <> l.namespace <> ":")
    <> l.user_id
    <> ":"
    <> sys.str_int window_size

-- The pipeline of INCR and EXPIRE for each window: the counts, in order, and the store.
unfoldable pub consume : Platform → ℕ → RateLimiter → List (ℕ × ℕ) → Redis ℕ → List ℕ × Redis ℕ
unfolding counted write get_key
consume sys now l [] r = ([], r)
consume sys now l ((window, _) ∷ windows) r =
    let key = get_key sys l window in
    let e = counted now window (r key) in
    let (counts, r') = consume sys now l windows (write key (some e) r) in (e.value ∷ counts, r')

-- The loop over the results: false at the first count above its limit.
unfoldable pub within : List (ℕ × ℕ) → List ℕ → Bool
within [] counts = true
within (w ∷ windows) [] = true
within ((_, limit) ∷ windows) (c ∷ counts) =
    let rest = within windows counts in if ltb limit c then false else rest

unfoldable pub check_and_consume : Platform → ℕ → RateLimiter → Redis ℕ → Bool × Redis ℕ
unfolding consume within
check_and_consume sys now l r =
    let (counts, r') = consume sys now l l.limits r in (within l.limits counts, r')

-- `max(0, limit - int(result or 0))`
unfoldable pub remaining : Platform → ℕ → RateLimiter → List (ℕ × ℕ) → Redis ℕ → List ℕ
unfolding get get_key
remaining sys now l [] r = []
remaining sys now l ((window, limit) ∷ windows) r =
    let used : ℕ = elim (get now (get_key sys l window) r) [ none ↦ 0 | some n ↦ n ] in
    (limit - used) ∷ remaining sys now l windows r

unfoldable pub get_remaining : Platform → ℕ → RateLimiter → Redis ℕ → List ℕ
unfolding remaining
get_remaining sys now l r = remaining sys now l l.limits r
