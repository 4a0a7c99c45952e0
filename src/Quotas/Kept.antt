-- ===== src/Quotas/Kept.antt =====
-- The quota of a window is kept.
use domains_manager.Base.{
  ℕ, ◌+◌, ◌≤◌, ◌<◌, ◌≡◌, refl, ◌∙◌, sym, subst, ◌⊎◌, true, false, ◌&&◌, some, List, [], ◌∷◌, leb,
  if◌then◌else◌, arith, All, inl, inr, Bool-cases, ◌==◌,
}
use domains_manager.Base.Dict.{get, put, get-put, get-put_self, get-keep, get-keep_sound}
use domains_manager.Quotas.{
  Key, key_eq, key_beq_iff, Window, Store, Request, length_of, is_open, cleanup, current, consume,
}

-- The number of admitted requests under a key, in a sequence of requests.
unfoldable pub admitted : Key → List Request → Store → ℕ
admitted key [] s = 0
admitted key (r ∷ rs) s =
    let ((ok, wait), s') = consume r s in
    (if ok && (r.key == key) then 1 else 0) + admitted key rs s'

-- A request that comes before the window of `key` ends, whose own window is as long, and whose
-- quota, if it is under `key`, is the key's.
abbrev pub Fits : Key → ℕ → ℕ → ℕ → Request → Type 0
Fits key quota window started r =
    (length_of r ≡ window) × (r.now < started + window) × ((r.key == key) ≡ true → r.quota ≡ quota)

-- The window that a request finds, behind the cleanup.
found : Request → Store → Window
found r s = current (length_of r) r.now (get r.key (cleanup (length_of r) r.now s).windows)

consume_full :
    (r : Request) (s : Store)
    → leb r.quota (found r s).1 ≡ true
    → ((consume r s).0.0 ≡ false) × ((consume r s).1 ≡ cleanup (length_of r) r.now s)
unfolding consume found
consume_full r s e = rw (e, consume) (refl, refl)

consume_free :
    (r : Request) (s : Store)
    → leb r.quota (found r s).1 ≡ false
    → ((consume r s).0.0 ≡ true)
      × ((consume r s).1.windows
          ≡ put r.key ((found r s).0, (found r s).1 + 1) (cleanup (length_of r) r.now s).windows)
unfolding consume found
consume_free r s e = rw (e, consume) (refl, refl)

module _ (key : Key) (quota window started count : ℕ) (r : Request) (s : Store) where
  cleanup_keeps :
      get key s.windows ≡ some (started, count)
      → r.now < started + window
      → get key (cleanup window r.now s).windows ≡ some (started, count)
  unfolding cleanup
  cleanup_keeps h early = elim (Bool-cases (leb (s.last_cleanup + window) r.now)) [
    | inl e ↦
        rw (e, cleanup)
          (get-keep key (started, count) (is_open window r.now) s.windows h (ground arith))
    | inr e ↦ rw (e, cleanup) h
  ]

  found_own :
      get key s.windows ≡ some (started, count)
      → Fits key quota window started r
      → r.key ≡ key
      → found r s ≡ (started, count)
  unfolding found
  found_own h (same, early, quotas) hit = rw (hit, same, cleanup_keeps h early) (ground arith)

  -- What `consume` does with the window of `key` while it is open.
  consume_own :
      get key s.windows ≡ some (started, count)
      → Fits key quota window started r
      → (r.key == key) ≡ true
      → (((consume r s).0.0 ≡ true)
          × (count < quota)
          × (get key (consume r s).1.windows ≡ some (started, count + 1)))
        ⊎ (((consume r s).0.0 ≡ false) × (get key (consume r s).1.windows ≡ some (started, count)))
  consume_own h fit hit =
      let (same, early, quotas) = fit in
      let k : r.key ≡ key = (key_beq_iff r.key key).0 hit in
      let f = found_own h fit k in
      let q = quotas hit in
      elim (Bool-cases (leb r.quota (found r s).1)) [
        | inl e ↦ let (a, b) = consume_full r s e in inr (a, rw (b, same) (cleanup_keeps h early))
        | inr e ↦
            let (a, b) = consume_free r s e in
            inl (
              a,
              ground (arith, f, q),
              rw (b, f, k)
                  (get-put_self key (started, count + 1) (cleanup (length_of r) r.now s).windows),
            )
      ]

  consume_other :
      get key s.windows ≡ some (started, count)
      → Fits key quota window started r
      → (r.key == key) ≡ false
      → get key (consume r s).1.windows ≡ some (started, count)
  consume_other h (same, early, quotas) miss = elim (Bool-cases (leb r.quota (found r s).1)) [
    | inl e ↦ let (a, b) = consume_full r s e in rw (b, same) (cleanup_keeps h early)
    | inr e ↦
        let (a, b) = consume_free r s e in
        rw b (get-put r.key key _ _ ∙ rw (miss, same) (cleanup_keeps h early))
  ]

-- Of the requests that come before the window of a key ends, in any order with requests under
-- other keys and with any clock readings before that end, those admitted under the key are no more
-- than the quota has left, if all requests have windows of that one length.
pub admitted-le-quota :
    (key : Key) (quota window started : ℕ) (rs : List Request) (count : ℕ) (s : Store)
    → get key s.windows ≡ some (started, count)
    → count ≤ quota
    → All (Fits key quota window started) rs
    → count + admitted key rs s ≤ quota
unfolding admitted
admitted-le-quota key quota window started [] count s h le fits = omega arith
admitted-le-quota key quota window started (r ∷ rs) count s h le (fit, fits) =
    elim (Bool-cases (r.key == key)) [
      | inl hit ↦ elim (consume_own key quota window started count r s h fit hit) [
        | inl (ok, less, after) ↦
            let rest =
              admitted-le-quota key quota window started rs (count + 1) (consume r s).1 after
                (omega arith) fits in
            rw (ok, hit) (omega arith)
        | inr (refused, after) ↦
            let rest =
              admitted-le-quota key quota window started rs count (consume r s).1 after le fits in
            rw refused (omega arith)
      ]
      | inr miss ↦
          let rest =
            admitted-le-quota key quota window started rs count (consume r s).1
              (consume_other key quota window started count r s h fit miss) le fits in
          ground (arith)
    ]

cleanup_sound :
    (r : Request) (s : Store) (key : Key) (w : Window)
    → s.last_cleanup + length_of r ≤ r.now
    → get key (cleanup (length_of r) r.now s).windows ≡ some w
    → r.now < w.0 + length_of r
unfolding cleanup
cleanup_sound r s key w late left =
    ground (arith, get-keep_sound key w (is_open (length_of r) r.now) s.windows)

-- When a request comes a window of its own behind the last cleanup, every window of another key
-- that is left started less than that length ago, whatever the length of that key's windows is.
pub cleanup_forgets :
    (r : Request) (s : Store) (key : Key) (w : Window)
    → s.last_cleanup + length_of r ≤ r.now
    → (r.key == key) ≡ false
    → get key (consume r s).1.windows ≡ some w
    → r.now < w.0 + length_of r
cleanup_forgets r s key w late miss h =
    let left : get key (cleanup (length_of r) r.now s).windows ≡ some w =
      elim (Bool-cases (leb r.quota (found r s).1)) [
        | inl e ↦
            let (a, b) = consume_full r s e in subst (λ (t : Store). get key t.windows ≡ some w) b h
        | inr e ↦
            let (a, b) = consume_free r s e in
            sym (get-put r.key key _ _ ∙ rw miss refl) ∙ subst (λ t. get key t ≡ some w) b h
      ] in
    cleanup_sound r s key w late left
