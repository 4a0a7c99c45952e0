-- ===== src/Lookup/StatusCodes/Canonical.antt =====
-- A normalized status is its own normal form.
use mathlib.Core.Option.{some-injective}
use domains_manager.Base.{
  ◌≡◌, ◌≢◌, refl, sym, ap, ◌∙◌, subst, String, true, false, not, Option, none, some, List, [], ◌∷◌,
  inl, inr, arith, All, Bool-cases, Option-cases, str_eq, eq_iff, if◌then◌else◌, string_eq,
}
use domains_manager.Base.Dict.{get, put, get-put, get-put_self}
use domains_manager.Base.Result.{ok, guard, bind_ok, value_error}
use domains_manager.Lookup.StatusCodes.{
  DomainStatusCode, DomainStatusCodeRegistry, Index, agrees, rdap_or, add_index, index_codes,
  registry, resolve, normalize, normalized_key, status_code,
}

some_eq : {x c : DomainStatusCode} → ◌≡◌ {A = Option DomainStatusCode} (some x) (some c) → x ≡ c
some_eq {x} {c} h = some-injective x c h

agrees_lem :
    (e r : Index) (k : String) {c d : DomainStatusCode}
    → agrees e r ≡ true
    → get k e ≡ some c
    → get k r ≡ some d
    → c.rdap_code ≡ d.rdap_code
unfolding agrees get
agrees_lem [] r k h p q = absurd (ground arith)
agrees_lem ((j, x) ∷ e) r k {c} {d} h p q = elim (Bool-cases (str_eq j k)) [
  | inl b ↦ here b (rw b at p)
  | inr b ↦ agrees_lem e r k {c = c} {d = d} (ground arith) (ground arith) q
]
  where
    here :
        str_eq j k ≡ true
        → ◌≡◌ {A = Option DomainStatusCode} (some x) (some c)
        → c.rdap_code ≡ d.rdap_code
    here b s =
        let e2 : get j r ≡ some d = ap (λ (n : String). get n r) ((eq_iff j k).0 b) ∙ q in
        ap (λ (y : DomainStatusCode). y.rdap_code) (sym (some_eq s))
        ∙ ground (arith, e2, eq_iff x.rdap_code d.rdap_code)

module _ (words key : String → String) where
  -- A code as its constructor leaves it.
  abbrev pub IsMade : DomainStatusCode → Type 0
  IsMade c = (key c.rdap_code ≡ c.rdap_code) × (c.rdap_code ≢ "")

  -- What the constructor of the registry keeps of its indexes.
  record IsIndexed (e r : Index) : Type 0 where
    under : (k : String) (c : DomainStatusCode) → get k r ≡ some c → c.rdap_code ≡ k
    made : (k : String) (c : DomainStatusCode) → get k r ≡ some c → IsMade c
    shared : (k : String) (c : DomainStatusCode) → get k e ≡ some c → get c.rdap_code r ≡ some c

  empty-IsIndexed : IsIndexed [] []
  unfolding get
  empty-IsIndexed = record {
    under = λ k c h. absurd (ground arith);
    made = λ k c h. absurd (ground arith);
    shared = λ k c h. absurd (ground arith);
  }

  add_index_lem :
      (i j : Index) (value : String) (c : DomainStatusCode)
      → add_index words key i value c ≡ ok j
      → (get (key value) i ≡ none) × (j ≡ put (key value) c i)
  unfolding add_index
  add_index_lem i j value c h = ground arith

  put-IsIndexed :
      (e r : Index) (x : DomainStatusCode) (k : String)
      → IsIndexed e r
      → IsMade x
      → get x.rdap_code r ≡ none
      → IsIndexed (put k x e) (put x.rdap_code x r)
  put-IsIndexed e r x k v m new = record {
    under = λ j c h. ground (arith, get-put x.rdap_code j x r, eq_iff x.rdap_code j, v.under j c);
    made = λ j c h.
        let h' : (if str_eq x.rdap_code j then some x else get j r) ≡ some c =
          sym (get-put x.rdap_code j x r) ∙ h in
        elim (Bool-cases (str_eq x.rdap_code j)) [
          | inl b ↦ subst IsMade (some_eq (rw b at h')) m
          | inr b ↦ v.made j c (rw b at h')
        ];
    shared = λ j c h.
        let h' : (if str_eq k j then some x else get j e) ≡ some c = sym (get-put k j x e) ∙ h in
        elim (Bool-cases (str_eq k j)) [
          | inl b ↦
              subst (λ (y : DomainStatusCode). get y.rdap_code (put x.rdap_code x r) ≡ some y)
                (some_eq (rw b at h')) (get-put_self x.rdap_code x r)
          | inr b ↦
              let old : get c.rdap_code r ≡ some c = v.shared j c (rw b at h') in
              get-put x.rdap_code c.rdap_code x r
              ∙ ground (arith, eq_iff x.rdap_code c.rdap_code, ap (λ (n : String). get n r))
        ];
  }

  index_codes-IsIndexed :
      (codes : List DomainStatusCode) (e r e' r' : Index)
      → IsIndexed e r
      → All IsMade codes
      → index_codes words key codes e r ≡ ok (e', r')
      → IsIndexed e' r'
  unfolding index_codes
  index_codes-IsIndexed [] e r e' r' v m h =
      let same : (e ≡ e') × (r ≡ r') = (ground arith, ground arith) in
      subst (λ i. IsIndexed i r') same.0 (subst (λ j. IsIndexed e j) same.1 v)
  index_codes-IsIndexed (c ∷ codes) e r e' r' v m h =
      let (e1, p, h1) = bind_ok (add_index words key e c.epp_code c) _ h in
      let (r1, q, h2) = bind_ok (add_index words key r c.rdap_code c) _ h1 in
      let (pn, pe) = add_index_lem e e1 c.epp_code c p in
      let (qn, qe) = add_index_lem r r1 c.rdap_code c q in
      index_codes-IsIndexed codes e1 r1 e' r'
        (subst (λ i. IsIndexed i r1) (sym pe)
          (subst (λ j. IsIndexed (put (key c.epp_code) c e) j)
            (sym (qe ∙ ap (λ (n : String). put n c r) (m.0.0)))
            (put-IsIndexed e r c (key c.epp_code) v (m.0)
              (ap (λ (n : String). get n r) (sym (m.0.0)) ∙ qn))))
        (m.1) h2

  registry_lem :
      (codes : List DomainStatusCode) (g : DomainStatusCodeRegistry)
      → registry words key codes ≡ ok g
      → (index_codes words key codes [] [] ≡ ok (g.by_epp, g.by_rdap))
        × (agrees g.by_epp g.by_rdap ≡ true)
  unfolding registry
  registry_lem codes g built =
      let (ix, p, h1) = bind_ok (index_codes words key codes [] []) _ built in
      (ground arith, ground arith)

  normalize_lem :
      (g : DomainStatusCodeRegistry) (value status : String)
      → normalize words key g value ≡ some status
      → (str_eq (key value) "" ≡ false)
        × (status ≡ rdap_or (key value) (resolve words key g (key value)))
  unfolding normalize
  normalize_lem g value status h = (ground arith, ground arith)

  module _ (g : DomainStatusCodeRegistry) (v : IsIndexed g.by_epp g.by_rdap)
      (a : agrees g.by_epp g.by_rdap ≡ true) where
    normalize_rdap :
        (c : DomainStatusCode)
        → get c.rdap_code g.by_rdap ≡ some c
        → normalize words key g c.rdap_code ≡ some c.rdap_code
    unfolding normalize resolve
    normalize_rdap c e =
        let m = v.made c.rdap_code c e in
        rw (m.0, m.0)
          (elim (Option-cases (get c.rdap_code g.by_epp)) [
            | inl n ↦ rw (n, e) (ground (arith, eq_iff c.rdap_code "", m.1))
            | inr (d, n) ↦ rw n (
                ground (
                  arith,
                  eq_iff c.rdap_code "",
                  m.1,
                  agrees_lem g.by_epp g.by_rdap c.rdap_code a n e,
                ))
          ])

    normalize_key :
        (k : String)
        → key k ≡ k
        → str_eq k "" ≡ false
        → get k g.by_epp ≡ none
        → get k g.by_rdap ≡ none
        → normalize words key g k ≡ some k
    unfolding normalize resolve
    normalize_key k idem h n q = rw (idem, idem, h, n, q) refl

    resolved :
        (value : String)
        → ((s : String) → key (key s) ≡ key s)
        → str_eq (key value) "" ≡ false
        → let status = rdap_or (key value) (resolve words key g (key value)) in
          normalize words key g status ≡ some status
    unfolding resolve
    resolved value idem h = elim (Option-cases (get (key (key value)) g.by_epp)) [
      | inr (c, n) ↦ rw n (normalize_rdap c (v.shared (key (key value)) c n))
      | inl n ↦ elim (Option-cases (get (key (key value)) g.by_rdap)) [
        | inr (c, q) ↦
            rw (n, q)
              (normalize_rdap c
                (ap (λ (s : String). get s g.by_rdap) (v.under (key (key value)) c q) ∙ q))
        | inl q ↦
            rw (n, q)
              (normalize_key (key value) (idem value) h
                (ap (λ (k : String). get k g.by_epp) (sym (idem value)) ∙ n)
                (ap (λ (k : String). get k g.by_rdap) (sym (idem value)) ∙ q))
      ]
    ]

  normalize_twice :
      (codes : List DomainStatusCode) (g : DomainStatusCodeRegistry) (value status : String)
      → ((s : String) → key (key s) ≡ key s)
      → All IsMade codes
      → registry words key codes ≡ ok g
      → normalize words key g value ≡ some status
      → normalize words key g status ≡ some status
  normalize_twice codes g value status idem m built h =
      let (indexed, a) = registry_lem codes g built in
      let (filled, e) = normalize_lem g value status h in
      let v = index_codes-IsIndexed codes [] [] g.by_epp g.by_rdap empty-IsIndexed m indexed in
      subst (λ s. normalize words key g s ≡ some s) (sym e) (resolved g v a value idem filled)

  -- A code that the constructor made of two texts.
  abbrev pub IsCode : DomainStatusCode → Type 0
  IsCode c = (epp : String) × (rdap : String) × (status_code words key epp rdap ≡ ok c)

  IsCode-IsMade :
      ((s : String) → key (key s) ≡ key s) → (c : DomainStatusCode) → IsCode c → IsMade c
  unfolding status_code
  IsCode-IsMade idem c (epp, rdap, h) =
      let (u, p, h1) = bind_ok (guard (not (str_eq (words epp) "")) value_error) _ h in
      let (v, q, h2) = bind_ok (guard (not (str_eq (key rdap) "")) value_error) _ h1 in
      let same : key rdap ≡ c.rdap_code = ground (arith, h2) in
      (
        ap key (sym same) ∙ idem rdap ∙ same,
        λ e. absurd (ground (arith, eq_iff (key rdap) "", same ∙ e, q)),
      )

  codes-IsMade :
      ((s : String) → key (key s) ≡ key s)
      → (codes : List DomainStatusCode) → All IsCode codes
      → All IsMade codes
  codes-IsMade idem [] a = tt
  codes-IsMade idem (c ∷ codes) (x, xs) = (IsCode-IsMade idem c x, codes-IsMade idem codes xs)

module _ (words casefold : String → String) where
  abbrev pub key : String → String
  key = normalized_key words casefold

  -- Where the key of a key is the key, a status that `normalize` returns is its own normal form, in
  -- every registry that its constructor made of codes that theirs made.
  pub normalize_idem :
      (codes : List DomainStatusCode) (g : DomainStatusCodeRegistry) (value status : String)
      → ((s : String) → key (key s) ≡ key s)
      → All (IsCode words key) codes
      → registry words key codes ≡ ok g
      → normalize words key g value ≡ some status
      → normalize words key g status ≡ some status
  normalize_idem codes g value status idem made =
      normalize_twice words key codes g value status idem (codes-IsMade words key idem codes made)
