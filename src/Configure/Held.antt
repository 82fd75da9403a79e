-- ===== src/Configure/Held.antt =====
-- What the settings of a run are held to.
use ldp.Base.{
  ℕ, suc, Bool, true, false, List, [], Option, none, some, Bytes, equal, equal_iff, codes, ◌++◌,
  All, Result, ok, runtime_error, >>=-eq-ok, ok-injective, Bool-cases, ◌≡◌, ◌⊎◌, inl, inr, refl,
  sym, ap, subst, ◌∙◌, arith,
}
use ldp.Config.Lookup.{get, get_bool, get_required, bool_of}
use ldp.Config.Sources.{HasPort, port_or_default-is_port, get_enable_sources-HasPort}
use ldp.Config.{is_port, get_json_pointer, get_int, port_or_default, source_key}
use ldp.Configure.{
  Connection, Settings, assign, configure_database, configure_users, configure_flags,
  configure_sources, configure, config_options, checked, prepare,
}
use ldp.Json.{ℤ, Value, boolean, Rapidjson}
use ldp.Options.Deployment.{IsAllowed, validate_ok-IsAllowed}
use ldp.Options.{Options, DataSource, config_set_environment, validate_options_in_deployment}

-- A Boolean that is found is the one in the document.
bool_of-some :
    (key : Bytes) (o : Option Value) (b : Bool) → bool_of key o ≡ ok (some b) → o ≡ some (boolean b)
unfolding bool_of
bool_of-some key none b h = cc
bool_of-some key (some (boolean c)) b h = cc
bool_of-some key (some _) b h = cc

checked-ok :
    (configured : Result Settings) (s : Settings)
    → checked configured ≡ ok s
    → (configured ≡ ok s) × IsAllowed s.options
unfolding checked
checked-ok (runtime_error e) s h = cc
checked-ok (ok c) s h =
    let (u, e1, h1) = >>=-eq-ok (validate_options_in_deployment c.options) _ h in
    let e = ok-injective c s h1 in
    (
      ap (λ x. ok x) e,
      subst (λ x. IsAllowed (Settings.options x)) e (validate_ok-IsAllowed c.options e1),
    )

module _ (r : Rapidjson) (jsondoc : Value) where
  -- A setting that is off was off before, or the document says so.
  abbrev pub IsOff : Bytes → Bool → Bool → Type 0
  IsOff key old new =
      new ≡ false → (old ≡ false) ⊎ (get_json_pointer r jsondoc key ≡ some (boolean false))

  assign-IsOff :
      (key : Bytes) (found : Option Bool) (old : Bool)
      → get_bool r jsondoc key ≡ ok found
      → IsOff key old (assign found old)
  unfolding get_bool assign
  assign-IsOff key none old h e = inl e
  assign-IsOff key (some b) old h e =
      inr (bool_of-some key (get_json_pointer r jsondoc key) b h ∙ ap (λ x. some (boolean x)) e)

  configure_flags-kept :
      (opt flagged : Options)
      → configure_flags r jsondoc opt ≡ ok flagged
      → IsOff (codes "/anonymize") opt.anonymize flagged.anonymize
        × (flagged.enable_sources ≡ opt.enable_sources)
        × (flagged.load_from_dir ≡ opt.load_from_dir)
  unfolding configure_flags
  configure_flags-kept opt flagged h =
      let (anonymize, e0, h0) = >>=-eq-ok (get_bool r jsondoc _) _ h in
      let (a1, e1, h1) = >>=-eq-ok (get_bool r jsondoc _) _ h0 in
      let (a2, e2, h2) = >>=-eq-ok (get_bool r jsondoc _) _ h1 in
      let (a3, e3, h3) = >>=-eq-ok (get_bool r jsondoc _) _ h2 in
      let (a4, e4, h4) = >>=-eq-ok (get_bool r jsondoc _) _ h3 in
      let (a5, e5, h5) = >>=-eq-ok (get_bool r jsondoc _) _ h4 in
      let (a6, e6, h6) = >>=-eq-ok (get_bool r jsondoc _) _ h5 in
      subst Kept (ok-injective _ flagged h6)
        (assign-IsOff (codes "/anonymize") anonymize opt.anonymize e0, refl, refl)
    where
      Kept : Options → Type 0
      Kept o =
          IsOff (codes "/anonymize") opt.anonymize o.anonymize
          × (o.enable_sources ≡ opt.enable_sources)
          × (o.load_from_dir ≡ opt.load_from_dir)

  configure_users-kept :
      (s named : Settings)
      → configure_users r jsondoc s ≡ ok named
      → (named.options.anonymize ≡ s.options.anonymize)
        × (named.options.load_from_dir ≡ s.options.load_from_dir)
        × (named.dbinfo ≡ s.dbinfo)
  unfolding configure_users
  configure_users-kept s named h =
      let (a1, e1, h1) = >>=-eq-ok (get r jsondoc _) _ h in
      let (a2, e2, h2) = >>=-eq-ok (get r jsondoc _) _ h1 in
      let (a3, e3, h3) = >>=-eq-ok (get r jsondoc _) _ h2 in
      let (a4, e4, h4) = >>=-eq-ok (get r jsondoc _) _ h3 in
      subst Kept (ok-injective _ named h4) (refl, refl, refl)
    where
      Kept : Settings → Type 0
      Kept x =
          (x.options.anonymize ≡ s.options.anonymize)
          × (x.options.load_from_dir ≡ s.options.load_from_dir)
          × (x.dbinfo ≡ s.dbinfo)

  -- Both reads of the port give the same.
  assign-is_port :
      (key : Bytes) (found again : Option ℤ) (port : ℤ)
      → found ≡ again
      → port_or_default key found ≡ ok port
      → is_port (assign again port) ≡ true
  unfolding assign port_or_default
  assign-is_port key found none port e h = port_or_default-is_port key found port h
  assign-is_port key found (some p) port e h = elim (Bool-cases (is_port p)) [
    | inl i ↦ i
    | inr i ↦ absurd (differ (rw i at given))
  ]
    where
      given : port_or_default key (some p) ≡ ok port
      given = subst (λ f. port_or_default key f ≡ ok port) e h

      differ : {m : Bytes} → runtime_error m ≡ ok port → ⊥
      differ q = cc

  configure_database-is_port :
      (old info : Connection)
      → configure_database r jsondoc old ≡ ok info
      → is_port info.dbport ≡ true
  unfolding configure_database
  configure_database-is_port old info h =
      let (a1, e1, h1) = >>=-eq-ok (get_required r jsondoc _) _ h in
      let (a2, e2, h2) = >>=-eq-ok (get_required r jsondoc _) _ h1 in
      let (found, e3, h3) = >>=-eq-ok (get_int r jsondoc database_port true) _ h2 in
      let (port, e4, h4) = >>=-eq-ok (port_or_default database_port found) _ h3 in
      let (again, e5, h5) = >>=-eq-ok (get_int r jsondoc database_port true) _ h4 in
      let (a6, e6, h6) = >>=-eq-ok (get_required r jsondoc _) _ h5 in
      let (a7, e7, h7) = >>=-eq-ok (get_required r jsondoc _) _ h6 in
      let (a8, e8, h8) = >>=-eq-ok (get_required r jsondoc _) _ h7 in
      subst (λ c. is_port (Connection.dbport c) ≡ true) (ok-injective _ info h8)
        (assign-is_port database_port found again port (ok-injective found again (sym e3 ∙ e5)) e4)
    where
      database_port : Bytes
      database_port = codes "/ldp_database/" ++ codes "database_port"

  -- What holds of the settings that a run goes on with.
  pub record IsConfigured (old s : Settings) : Type 0 where
    pub database_port : is_port s.dbinfo.dbport ≡ true
    pub sources : old.options.load_from_dir ≡ [] → All HasPort s.options.enable_sources
    pub from_dir : s.options.load_from_dir ≡ old.options.load_from_dir
    pub anonymized : IsOff (codes "/anonymize") old.options.anonymize s.options.anonymize
    pub allowed : IsAllowed s.options

  -- The same before the options are validated, the sources being given.
  abbrev Holds : Result (List DataSource) → Settings → Settings → Type 0
  Holds found old s =
      (is_port s.dbinfo.dbport ≡ true)
      × (found ≡ ok s.options.enable_sources)
      × (s.options.load_from_dir ≡ old.options.load_from_dir)
      × IsOff (codes "/anonymize") old.options.anonymize s.options.anonymize

  configure-Holds :
      (found : Result (List DataSource)) (old s : Settings)
      → configure r jsondoc found old ≡ ok s
      → Holds found old s
  unfolding configure
  configure-Holds found old s h =
      let (a1, e1, h1) = >>=-eq-ok (get_required r jsondoc (codes "/deployment_environment")) _ h in
      let (env, e2, h2) = >>=-eq-ok (config_set_environment a1) _ h1 in
      let (info, e3, h3) = >>=-eq-ok (configure_database r jsondoc old.dbinfo) _ h2 in
      let (named, e4, h4) = >>=-eq-ok (configure_users r jsondoc _) _ h3 in
      let (ds, e5, h5) = >>=-eq-ok found _ h4 in
      let (flagged, e6, h6) = >>=-eq-ok (configure_flags r jsondoc _) _ h5 in
      let (anonymize, dir, at) = configure_users-kept _ named e4 in
      let (off, kept, same) = configure_flags-kept _ flagged e6 in
      subst (Holds found old) (ok-injective _ s h6) (
        subst (λ c. is_port (Connection.dbport c) ≡ true) (sym at)
            (configure_database-is_port old.dbinfo info e3),
        e5 ∙ ap (λ x. ok x) (sym kept),
        same ∙ dir,
        subst (λ b. IsOff (codes "/anonymize") b flagged.anonymize) anonymize off,
      )

  prepared :
      (fuel : ℕ) (old : Settings) (found : Result (List DataSource))
      → configure_sources r jsondoc fuel old.options ≡ some found
      → prepare r jsondoc fuel old ≡ some (checked (configure r jsondoc found old))
  unfolding prepare checked
  prepared fuel old found e = rw (e, prepare, config_options)

  -- The sources of the configuration, or those of the caller.
  configure_sources-ends :
      (length : ℕ) (opt : Options)
      → get_json_pointer r jsondoc (source_key length) ≡ none
      → (found : Result (List DataSource)) × (configure_sources r jsondoc (suc length) opt
          ≡ some found)
        × ((ds : List DataSource) → opt.load_from_dir ≡ [] → found ≡ ok ds → All HasPort ds)
  unfolding configure_sources
  configure_sources-ends length opt h = elim (Bool-cases (equal opt.load_from_dir [])) [
    | inl e ↦
        let (a, p, ports) = get_enable_sources-HasPort r jsondoc length h in
        (a, rw e p, λ ds empty q. ports ds q)
    | inr e ↦ (
      ok opt.enable_sources,
      rw e refl,
      λ ds empty q. absurd (ground (arith, (equal_iff opt.load_from_dir []).1 empty)),
    )
  ]

  -- If the array of sources has no value at the index `length`, what comes before the command ends,
  -- with as much fuel as there are indexes up to that one; and if it ends without an error, the port
  -- of the database is from 1 to 65535 and so are those of the sources unless the data is loaded
  -- from a directory, which the configuration does not change; personal data is left as it is only
  -- if that was so before or the configuration says so; and the options are allowed in their
  -- environment.
  pub prepare-IsConfigured :
      (length : ℕ) (old : Settings)
      → get_json_pointer r jsondoc (source_key length) ≡ none
      → (a : Result Settings) × (prepare r jsondoc (suc length) old ≡ some a)
        × ((s : Settings) → a ≡ ok s → IsConfigured old s)
  prepare-IsConfigured length old h =
      let (found, e, ports) = configure_sources-ends length old.options h in
      (
        checked (configure r jsondoc found old),
        prepared (suc length) old found e,
        λ s q.
            let (c, allowed) = checked-ok (configure r jsondoc found old) s q in
            let (port, given, dir, off) = configure-Holds found old s c in
            record {
              database_port = port;
              sources = λ empty. ports s.options.enable_sources empty given;
              from_dir = dir;
              anonymized = off;
              allowed = allowed;
            },
      )
