-- ===== src/RateLimiter/Windows.antt =====
-- What a limiter with one window, as `parse_limits` makes it, lets through.
use ezauth.Prelude.{
  ℕ, zero, suc, ◌+◌, ◌-◌, ◌*◌, ◌<◌, String, Bool, none, some, List, [], ◌∷◌, ◌≡◌, ◌≢◌, refl, ap,
  string_eq, leb, ltb, length, All, arith,
}
use ezauth.Config.{second}
use ezauth.Platform.{Platform}
use ezauth.Redis.{Redis, counted, write, get-write_ne, get}
use ezauth.RateLimiter.{RateLimiter, get_key, check_and_consume, get_remaining}

module _ (sys : Platform) (window limit : ℕ) (user_id namespace : String) where
  abbrev pub limiter : RateLimiter
  limiter = record { limits = (window, limit) ∷ []; user_id = user_id; namespace = namespace }

  abbrev key : String
  key = get_key sys limiter window

  -- The answers to calls at the given instants, one after the other.
  pub answers : List ℕ → Redis ℕ → List Bool
  answers [] r = []
  answers (t ∷ ts) r =
      let (allowed, r') = check_and_consume sys t limiter r in allowed ∷ answers ts r'

  -- Yes to the first calls, up to `limit` in all, and no to the others; `k` calls were made before.
  pub first_allowed : ℕ → ℕ → List Bool
  first_allowed k zero = []
  first_allowed k (suc n) = leb (k + 1) limit ∷ first_allowed (k + 1) n

  check-one :
      (t : ℕ) (r : Redis ℕ)
      → check_and_consume sys t limiter r ≡ (
        leb (counted t window (r key)).value limit,
        write key (some (counted t window (r key))) r,
      )
  unfolding check_and_consume
  check-one t r = ground arith

  answers_open :
      (ts : List ℕ) (k until : ℕ) (r : Redis ℕ)
      → All (λ t. t < until) ts
      → r key ≡ some (record { value = k; expires_at = some until })
      → answers ts r ≡ first_allowed k (length ts)
  unfolding answers first_allowed
  answers_open [] k until r inside e = refl
  answers_open (t ∷ ts) k until r inside e =
      let counted_here : counted t window (r key)
          ≡ record { value = k + 1; expires_at = some until } =
        rw e (unfold counted in ground arith) in
      rw (check-one t r, counted_here)
        (ap (λ (l : List Bool). leb (k + 1) limit ∷ l)
          (answers_open ts (k + 1) until
            (write key (some (record { value = k + 1; expires_at = some until })) r) inside.1
            (unfold write in ground arith)))

  -- In a window that the first call opens, exactly the first `limit` calls are let through and every
  -- later one is refused, however many there are: where no counter of the subject is alive at the
  -- first call, and the others are made before the window has passed since then.
  pub check_and_consume-window :
      (t : ℕ) (ts : List ℕ) (r : Redis ℕ)
      → get t key r ≡ none
      → All (λ u. u < t + window * second) ts
      → answers (t ∷ ts) r ≡ first_allowed 0 (suc (length ts))
  unfolding answers first_allowed get
  check_and_consume-window t ts r absent inside =
      let until = t + window * second in
      let counted_here : counted t window (r key) ≡ record { value = 1; expires_at = some until } =
        unfold counted in ground arith in
      rw (check-one t r, counted_here)
        (ap (λ (l : List Bool). leb 1 limit ∷ l)
          (answers_open ts 1 until
            (write key (some (record { value = 1; expires_at = some until })) r) inside
            (unfold write in ground arith)))

  -- The limit less the calls counted in the open window.
  abbrev pub left : ℕ → Redis ℕ → ℕ
  left t r = limit - elim (get t key r) [ none ↦ 0 | some n ↦ n ]

  -- What `get_remaining` reports is what the next call will find: it is let through exactly when
  -- the reported number is not zero.
  pub get_remaining-check_and_consume :
      (t : ℕ) (r : Redis ℕ)
      → (get_remaining sys t limiter r ≡ left t r ∷ [])
        × ((check_and_consume sys t limiter r).0 ≡ ltb 0 (left t r))
  unfolding get_remaining get
  get_remaining-check_and_consume t r = (refl, rw (check-one t r) (unfold counted in ground arith))

  -- A call counts against its own key alone.
  pub check_and_consume-others :
      (t now : ℕ) (other : String) (r : Redis ℕ)
      → key ≢ other
      → get now other (check_and_consume sys t limiter r).1 ≡ get now other r
  check_and_consume-others t now other r apart =
      rw (check-one t r, get-write_ne key (some (counted t window (r key))) r now other apart) refl
