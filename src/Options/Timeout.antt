-- ===== src/Options/Timeout.antt =====
-- The timeout of requests after the command line has been read.
use ldp.Base.{
  Bool, true, false, List, [], ◌∷◌, if◌then◌else◌, ltb, Bytes, codes, equal, Result, ok,
  runtime_error, ◌>>=◌, ◌≡◌, refl, subst, arith,
}
use ldp.Json.{ℤ, pos, negsuc}
use ldp.Options.{
  Options, Given, long_option, datadir_option, verbose_option, help_option, evalopt, evaloptlong,
  eval_given, eval_all, at_least_one, config_set_command, config_set_profile,
}

-- One second or more.
abbrev is_positive : ℤ → Bool
is_positive (pos n) = ltb 0 n
is_positive (negsuc n) = false

at_least_one-positive : (n : ℤ) → is_positive (at_least_one n) ≡ true
unfolding at_least_one
at_least_one-positive (pos n) = ground arith
at_least_one-positive (negsuc n) = refl

-- The options of a result, if it has any, have a positive timeout.
record IsTimed (r : Result Options) : Type 0 where
  timed_ok : (opt : Options) → r ≡ ok opt → is_positive opt.okapi_timeout ≡ true

ok-IsTimed : (opt : Options) → is_positive opt.okapi_timeout ≡ true → IsTimed (ok opt)
ok-IsTimed opt h = record { timed_ok = λ o e. subst timed (injective o e) h }
  where
    timed : Options → Type 0
    timed o = is_positive o.okapi_timeout ≡ true

    injective : (o : Options) → ok opt ≡ ok o → opt ≡ o
    injective o e = cc

if-IsTimed :
    (b : Bool) (r s : Result Options) → IsTimed r → IsTimed s → IsTimed (if b then r else s)
if-IsTimed true r s hr hs = hr
if-IsTimed false r s hr hs = hs

>>=-IsTimed {ℓ} :
    {A : Type ℓ} (m : Result A) (f : A → Result Options)
    → ((a : A) → m ≡ ok a → IsTimed (f a))
    → IsTimed (m >>= f)
>>=-IsTimed (ok a) f h = h a refl
>>=-IsTimed (runtime_error e) f h = record { timed_ok = λ o q. cc }

evaloptlong-IsTimed :
    (name arg : Bytes) (n : ℤ) (opt : Options)
    → is_positive opt.okapi_timeout ≡ true
    → IsTimed (evaloptlong name arg n opt)
unfolding evaloptlong
evaloptlong-IsTimed name arg n opt h =
    if-IsTimed (equal name (codes "extract-only")) _ _ (ok-IsTimed _ h) (
      if-IsTimed (equal name (codes "sourcedir")) _ _ (ok-IsTimed _ h) (
        if-IsTimed (equal name (codes "table")) _ _ (ok-IsTimed _ h) (
          if-IsTimed (equal name (codes "profile")) _ _
            (>>=-IsTimed (config_set_profile arg) _ (λ p e. ok-IsTimed _ h))
            (if-IsTimed (equal name (codes "savetemps")) _ _ (ok-IsTimed _ h) (
              if-IsTimed (equal name (codes "debug")) _ _ (ok-IsTimed _ h) (
                if-IsTimed (equal name (codes "trace")) _ _ (ok-IsTimed _ h) (
                  if-IsTimed (equal name (codes "detail")) _ _ (ok-IsTimed _ h) (
                    if-IsTimed (equal name (codes "console")) _ _ (ok-IsTimed _ h) (
                      if-IsTimed (equal name (codes "quiet")) _ _ (ok-IsTimed _ h) (
                        if-IsTimed (equal name (codes "direct-extraction-no-ssl")) _ _
                          (ok-IsTimed _ h)
                          (if-IsTimed (equal name (codes "okapi-timeout")) _ _
                            (ok-IsTimed _ (at_least_one-positive n)) (ok-IsTimed _ h))))))))))))

eval_given-IsTimed :
    (g : Given) (opt : Options) → is_positive opt.okapi_timeout ≡ true → IsTimed (eval_given g opt)
unfolding eval_given
eval_given-IsTimed (long_option name arg n) opt h = evaloptlong-IsTimed name arg n opt h
eval_given-IsTimed (datadir_option arg) opt h = ok-IsTimed _ h
eval_given-IsTimed verbose_option opt h = ok-IsTimed _ h
eval_given-IsTimed help_option opt h = ok-IsTimed _ h

eval_all-IsTimed :
    (gs : List Given) (opt : Options)
    → is_positive opt.okapi_timeout ≡ true
    → IsTimed (eval_all gs opt)
unfolding eval_all
eval_all-IsTimed [] opt h = ok-IsTimed _ h
eval_all-IsTimed (g ∷ gs) opt h =
    >>=-IsTimed (eval_given g opt) _
      (λ o e. eval_all-IsTimed gs o ((eval_given-IsTimed g opt h).timed_ok o e))

-- From options with a timeout of at least one second, such as the initial ones: whatever the
-- command line gives, the options that come of it have a timeout of at least one second.
evalopt-positive :
    (command_str : Bytes) (given : List Given) (opt read : Options)
    → is_positive opt.okapi_timeout ≡ true
    → evalopt command_str given opt ≡ ok read
    → is_positive read.okapi_timeout ≡ true
evalopt-positive command_str given opt read h e = timed.timed_ok read e
  where
    timed : IsTimed (evalopt command_str given opt)
    timed =
        unfold evalopt in
        >>=-IsTimed (config_set_command command_str) _ (λ c e. eval_all-IsTimed given _ h)
