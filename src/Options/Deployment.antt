-- ===== src/Options/Deployment.antt =====
-- What the options of a run are held to.
use ldp.Base.{
  Bool, true, false, not, ◌&&◌, [], Bytes, equal, equal_iff, Result, ok, ◌>>◌, throw_if, Bool-cases,
  ◌≡◌, ◌≢◌, ◌↔◌, refl, arith, inl, inr,
}
use ldp.Options.{Options, is_live, validate_options_in_deployment}

-- In production and staging, no option for tests is on; loading from a directory needs the setting
-- that allows destructive tests.
pub record IsAllowed (opt : Options) : Type 0 where
  pub not_extract_only : is_live opt.deploy_env ≡ true → opt.extract_only ≡ false
  pub not_savetemps : is_live opt.deploy_env ≡ true → opt.savetemps ≡ false
  pub not_from_dir : is_live opt.deploy_env ≡ true → opt.load_from_dir ≡ []
  pub destructive : opt.load_from_dir ≢ [] → opt.allow_destructive_tests ≡ true

throw_if-then :
    (b : Bool) (e : Bytes) (k : Result (Unit {0}))
    → (throw_if b e >> k) ≡ ok tt
    → (b ≡ false) × (k ≡ ok tt)
throw_if-then true e k h = cc
throw_if-then false e k h = (refl, h)

throw_if-ok : (b : Bool) (e : Bytes) → throw_if b e ≡ ok tt → b ≡ false
throw_if-ok true e h = cc
throw_if-ok false e h = refl

blocked : (a live : Bool) → (live ≡ true → a ≡ false) → (a && live) ≡ false
blocked a true h = ground (arith, h refl)
blocked a false h = ground arith

from_blocked : (a live : Bool) → (a && live) ≡ false → live ≡ true → a ≡ false
from_blocked a live h e = ground arith

-- Where the guards do not hold, a text that is not empty is blocked.
empty_text : (s : Bytes) → not (equal s []) ≡ false → s ≡ []
empty_text s h = (equal_iff s []).0 (ground arith)

empty_test : (s : Bytes) → s ≡ [] → not (equal s []) ≡ false
empty_test s h = rw ((equal_iff s []).1 h)

pub validate_ok-IsAllowed :
    (opt : Options) → validate_options_in_deployment opt ≡ ok tt → IsAllowed opt
unfolding validate_options_in_deployment
validate_ok-IsAllowed opt h =
    let (e0, h0) = throw_if-then (opt.extract_only && is_live opt.deploy_env) _ _ h in
    let (e1, h1) = throw_if-then (opt.savetemps && is_live opt.deploy_env) _ _ h0 in
    let (e2, h2) =
      throw_if-then (not (equal opt.load_from_dir []) && is_live opt.deploy_env) _ _ h1 in
    let e3 =
      throw_if-ok (not (equal opt.load_from_dir []) && not opt.allow_destructive_tests) _ h2 in
    record {
      not_extract_only = from_blocked opt.extract_only (is_live opt.deploy_env) e0;
      not_savetemps = from_blocked opt.savetemps (is_live opt.deploy_env) e1;
      not_from_dir =
          λ live. empty_text opt.load_from_dir (from_blocked _ (is_live opt.deploy_env) e2 live);
      destructive = λ given. destructive_by (equal_iff opt.load_from_dir []) given e3;
    }
  where
    destructive_by :
        {a b : Bool} {P : Type 0} → ((a ≡ true) ↔ P) → (P → ⊥) → (not a && not b) ≡ false → b ≡ true
    destructive_by {a} {b} i given e = elim (Bool-cases a) [
      | inl y ↦ absurd (given (i.0 y))
      | inr n ↦ ground arith
    ]

IsAllowed-validate_ok : (opt : Options) → IsAllowed opt → validate_options_in_deployment opt ≡ ok tt
unfolding validate_options_in_deployment
IsAllowed-validate_ok opt a = rw (
  blocked opt.extract_only (is_live opt.deploy_env) a.not_extract_only,
  blocked opt.savetemps (is_live opt.deploy_env) a.not_savetemps,
  blocked (not (equal opt.load_from_dir [])) (is_live opt.deploy_env)
      (λ live. empty_test opt.load_from_dir (a.not_from_dir live)),
  last,
)
  where
    last : (not (equal opt.load_from_dir []) && not opt.allow_destructive_tests) ≡ false
    last = elim (Bool-cases (equal opt.load_from_dir [])) [
      | inl e ↦ ground arith
      | inr e ↦ ground (
        arith,
        a.destructive (λ z. absurd (ground (arith, (equal_iff opt.load_from_dir []).1 z))),
      )
    ]

-- The check lets exactly the allowed options through.
pub validate_options_iff :
    (opt : Options) → (validate_options_in_deployment opt ≡ ok tt) ↔ IsAllowed opt
validate_options_iff opt = (validate_ok-IsAllowed opt, IsAllowed-validate_ok opt)
