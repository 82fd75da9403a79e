-- ===== src/Config/Sources.antt =====
-- The sources that the configuration enables.
use ldp.Base.{
  ℕ, zero, suc, ◌+◌, true, false, List, [], ◌∷◌, Option, none, some, Bytes, c_str, All, Result, ok,
  runtime_error, >>=-eq-ok, ok-injective, ◌≡◌, inl, inr, refl, sym, ap, subst, ◌∙◌, arith,
  Bool-cases, Option-cases,
}
use ldp.Config.{
  is_port, port_or_default, prepend_source, source_key, get_json_pointer, get_string, get_int,
  read_source, named_source, sources_loop, get_enable_sources,
}
use ldp.Json.{ℤ, pos, Value, string, Rapidjson}
use ldp.Options.{DataSource}

-- The port is one of TCP.
abbrev pub HasPort : DataSource → Type 0
HasPort d = is_port d.direct.database_port ≡ true

pub port_or_default-is_port :
    (key : Bytes) (o : Option ℤ) (port : ℤ) → port_or_default key o ≡ ok port → is_port port ≡ true
unfolding port_or_default is_port
port_or_default-is_port key none port h =
    subst (λ x. is_port x ≡ true) (ok-injective (pos 5432) port h) refl
port_or_default-is_port key (some p) port h = elim (Bool-cases (is_port p)) [
  | inl e ↦ subst (λ x. is_port x ≡ true) (ok-injective p port (rw e at h)) e
  | inr e ↦ absurd (differ (rw e at h))
]
  where
    differ : {m : Bytes} → runtime_error m ≡ ok port → ⊥
    differ q = cc

-- Each source has a port, if the loop gives any.
abbrev HavePorts : Option (Result (List DataSource)) → Type 0
HavePorts none = Unit
HavePorts (some (runtime_error e)) = Unit
HavePorts (some (ok ds)) = All HasPort ds

prepend_source-HavePorts :
    (d : Result DataSource) (rest : Option (Result (List DataSource)))
    → ((x : DataSource) → d ≡ ok x → HasPort x)
    → HavePorts rest
    → HavePorts (prepend_source d rest)
unfolding prepend_source
prepend_source-HavePorts (runtime_error e) rest h k = tt
prepend_source-HavePorts (ok d) none h k = tt
prepend_source-HavePorts (ok d) (some (runtime_error e)) h k = tt
prepend_source-HavePorts (ok d) (some (ok ds)) h k = (h d refl, k)

-- The loop ends with a result if the rest of it does.
prepend_source-ends :
    (d : Result DataSource) (rest : Option (Result (List DataSource)))
    (a : Result (List DataSource))
    → rest ≡ some a
    → (b : Result (List DataSource)) × (prepend_source d rest ≡ some b)
unfolding prepend_source
prepend_source-ends (runtime_error e) rest a h = (runtime_error e, refl)
prepend_source-ends (ok d) none a h = cc
prepend_source-ends (ok d) (some (runtime_error e)) a h = (runtime_error e, refl)
prepend_source-ends (ok d) (some (ok ds)) a h = (ok (d ∷ ds), refl)

module _ (r : Rapidjson) (jsondoc : Value) where
  read_source-HasPort :
      (name : Bytes) (d : DataSource) → read_source r jsondoc name ≡ ok d → HasPort d
  unfolding read_source
  read_source-HasPort name d h =
      let (a, e1, h1) = >>=-eq-ok (get_string r jsondoc _ true) _ h in
      let (b, e2, h2) = >>=-eq-ok (get_string r jsondoc _ false) _ h1 in
      let (c, e3, h3) = >>=-eq-ok (get_string r jsondoc _ false) _ h2 in
      let (f, e4, h4) = >>=-eq-ok (get_int r jsondoc _ false) _ h3 in
      let (p, e5, h5) = >>=-eq-ok (port_or_default _ f) _ h4 in
      let (u, e6, h6) = >>=-eq-ok (get_string r jsondoc _ false) _ h5 in
      let (w, e7, h7) = >>=-eq-ok (get_string r jsondoc _ false) _ h6 in
      subst HasPort (ok-injective _ d h7) (port_or_default-is_port _ f p e5)

  named_source-HasPort :
      (key : Bytes) (v : Value) (d : DataSource) → named_source r jsondoc key v ≡ ok d → HasPort d
  unfolding named_source
  named_source-HasPort key (string s) d h = read_source-HasPort (c_str s) d h
  named_source-HasPort key _ d h = cc

  -- No value at an index.
  abbrev EndsAt : ℕ → Type 0
  EndsAt index = get_json_pointer r jsondoc (source_key index) ≡ none

  moved : (m n : ℕ) → m ≡ n → EndsAt m → EndsAt n
  moved m n e h = subst EndsAt e h

  loop_end :
      (fuel index : ℕ) → EndsAt index → sources_loop r jsondoc (suc fuel) index ≡ some (ok [])
  unfolding sources_loop
  loop_end fuel index e = rw (e, sources_loop) refl

  loop_value :
      (fuel index : ℕ) (v : Value)
      → get_json_pointer r jsondoc (source_key index) ≡ some v
      → sources_loop r jsondoc (suc fuel) index
        ≡ prepend_source
            (named_source r jsondoc (source_key index) v)
            (sources_loop r jsondoc fuel (index + 1))
  unfolding sources_loop
  loop_value fuel index v e = rw (e, sources_loop) refl

  sources_loop-HavePorts : (fuel index : ℕ) → HavePorts (sources_loop r jsondoc fuel index)
  sources_loop-HavePorts zero index = unfold sources_loop in tt
  sources_loop-HavePorts (suc fuel) index =
      elim (Option-cases (get_json_pointer r jsondoc (source_key index))) [
        | inl e ↦ subst HavePorts (sym (loop_end fuel index e)) tt
        | inr (v, e) ↦ subst HavePorts (sym (loop_value fuel index v e)) (
            prepend_source-HavePorts (named_source r jsondoc (source_key index) v) _
              (named_source-HasPort (source_key index) v) (sources_loop-HavePorts fuel (index + 1)))
      ]

  sources_loop-ends :
      (fuel index : ℕ)
      → EndsAt (index + fuel)
      → (a : Result (List DataSource)) × (sources_loop r jsondoc (suc fuel) index ≡ some a)
  sources_loop-ends zero index h =
      (ok [], loop_end 0 index (moved (index + 0) index (omega arith) h))
  sources_loop-ends (suc fuel) index h =
      let (a, e) =
        sources_loop-ends fuel (index + 1)
          (moved (index + suc fuel) (index + 1 + fuel) (omega arith) h) in
      elim (Option-cases (get_json_pointer r jsondoc (source_key index))) [
        | inl n ↦ (ok [], loop_end (suc fuel) index n)
        | inr (v, p) ↦
            let (b, q) = prepend_source-ends (named_source r jsondoc (source_key index) v) _ a e in
            (b, loop_value (suc fuel) index v p ∙ q)
      ]

  -- If the array of sources has no value at the index `length`, the loop over it ends, with as much
  -- fuel as there are indexes up to that one; and if it gives sources and no error, each has a port
  -- from 1 to 65535.
  pub get_enable_sources-HasPort :
      (length : ℕ)
      → get_json_pointer r jsondoc (source_key length) ≡ none
      → (a : Result (List DataSource)) × (get_enable_sources r jsondoc (suc length) ≡ some a)
        × ((ds : List DataSource) → a ≡ ok ds → All HasPort ds)
  unfolding get_enable_sources
  get_enable_sources-HasPort length h =
      let (a, e) = sources_loop-ends length 0 (moved length (0 + length) (omega arith) h) in
      (
        a,
        e,
        λ ds q. subst HavePorts (e ∙ ap (λ x. some x) q) (sources_loop-HavePorts (suc length) 0),
      )
