-- ===== src/Lookup/Misread.antt =====
-- `_classify_error` of domainsmanager_lookup/facade.py reads the whole text of a failure, in which
-- the name of the domain stands too.
use Prim.Native.String.{◌++◌ as str_append}
use text.Mathlib.TextLemmas.{cons-append, nil-append}
use domains_manager.Base.{◌≡◌, refl, String, true, false, ◌||◌, none, arith}
use domains_manager.Tasks.Service.{unsupported}
use domains_manager.Lookup.{NormalizedDomain}
use domains_manager.Lookup.Service.{failure_text}
use domains_manager.Lookup.Facade.{begins_with, contains, classify_text, classify_error}

begins_with-append :
    (t s u : String) → begins_with t s ≡ true → begins_with t (str_append s u) ≡ true
unfolding begins_with
begins_with-append String.[] s u h = refl
begins_with-append (String.◌∷◌ c t) String.[] u h = absurd (cc)
begins_with-append (String.◌∷◌ c t) (String.◌∷◌ d s) u h =
    rw (cons-append d s u) (ground (arith, begins_with-append t s u))

begins_with-contains : (t s : String) → begins_with t s ≡ true → contains t s ≡ true
unfolding contains
begins_with-contains t String.[] h = h
begins_with-contains t (String.◌∷◌ c s) h = ground arith

contains-append_left : (t s u : String) → contains t s ≡ true → contains t (str_append s u) ≡ true
unfolding contains
contains-append_left t String.[] u h = begins_with-contains t _ (begins_with-append t String.[] u h)
contains-append_left t (String.◌∷◌ c s) u h = rw (cons-append c s u) (
    ground (
      arith,
      rw (cons-append c s u) at (begins_with-append t (String.◌∷◌ c s) u),
      contains-append_left t s u,
    ))

contains-append_right : (t s u : String) → contains t u ≡ true → contains t (str_append s u) ≡ true
unfolding contains
contains-append_right t String.[] u h = rw (nil-append u) h
contains-append_right t (String.◌∷◌ c s) u h =
    rw (cons-append c s u) (ground (arith, contains-append_right t s u))

contains-failure_text :
    (t : String) (d : NormalizedDomain) (detail : String)
    → contains t d.registrable_domain ≡ true
    → contains t (failure_text d detail) ≡ true
unfolding failure_text
contains-failure_text t d detail h =
    contains-append_right t "查询 " _
      (contains-append_left t d.registrable_domain (str_append " 失败：" detail) h)

-- A failure of a domain with "profile" in its name is taken for an unsupported one.
pub misread :
    (casefold : String → String) (d : NormalizedDomain) (detail : String)
    → contains "profile" d.registrable_domain ≡ true
    → let m = failure_text d detail in
      casefold m ≡ m
      → (contains "not_found" m || (contains "not found" m || contains "未注册" m)) ≡ false
      → (contains "rate_limited" m || (contains "rate limit" m || contains "限流" m)) ≡ false
      → classify_error casefold m none ≡ unsupported
unfolding classify_error classify_text
misread casefold d detail h e f g =
    rw (e, f, g) (ground (arith, contains-failure_text "profile" d detail h))
