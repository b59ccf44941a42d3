-- ===== src/Simulation/Module/Labels.antt =====
-- libs/simulation/module/runtime.py: what the labels of a sample say.
use s3ntinel.Prelude.{
  ◌≡◌, refl, sym, ap, ◌∙◌, Bool, true, false, not, ◌&&◌, ◌||◌, Option, some, [], ◌∷◌, String,
  str_eq, if◌then◌else◌, Bool-cases, Option-cases, inl, inr, any, none, List, subst,
}
use s3ntinel.Prelude.Dict.{Dict, lookup, insert, merge, lookup-insert}
use s3ntinel.Simulation.Coupling.{Signals}
use s3ntinel.Simulation.Coupling.Apply.{Port}
use s3ntinel.Simulation.Coupling.Config.{Objects, get, holds}
use s3ntinel.Simulation.Module.{BehaviorSample, Parameter, Module}
use s3ntinel.Simulation.Module.Metadata.{
  Fields, of_text, of_flag, zero_score, label, identity_of, filled, fault_labels, coupling_metadata,
  coupling_labels, set_missing, was_applied, coupling_is_active, sample_metadata,
}

-- The last entry of a key.
abbrev latest {ℓ} : {V : Type ℓ} → String → Dict V → Option V → Option V
latest key [] found = found
latest key (entry ∷ entries) found =
    latest key entries (if str_eq entry.0 key then some entry.1 else found)

lookup-merge {ℓ} :
    {V : Type ℓ} (key : String) (new old : Dict V)
    → lookup key (merge old new) ≡ latest key new (lookup key old)
unfolding merge
lookup-merge key [] old = refl
lookup-merge key (entry ∷ entries) old =
    lookup-merge key entries (insert entry.0 entry.1 old)
    ∙ ap (latest key entries) (lookup-insert key entry.0 entry.1 old)

module _ (signals : Signals) (objects : Objects signals) where
  abbrev port_active : Option (Port signals) → Bool
  port_active none = false
  port_active (some port) = coupling_is_active signals objects port.metadata

  -- Whether the port of a name has the metadata of a misbehaving coupling.
  abbrev pub misbehaves : Dict (Port signals) → String → Bool
  misbehaves ports name = port_active (lookup name ports)

  kept :
      (first second : Fields signals objects)
      → coupling_is_active signals objects first ≡ false
      → coupling_is_active signals objects second ≡ false
      → (b : Bool) → coupling_is_active signals objects (if b then first else second) ≡ false
  kept first second e f true = e
  kept first second e f false = f

  coupling_metadata-active :
      (ports : Dict (Port signals)) (names : List String) (nominal : Fields signals objects)
      → coupling_is_active signals objects nominal ≡ false
      → coupling_is_active signals objects (coupling_metadata signals objects ports names nominal)
        ≡ any (misbehaves ports) names
  unfolding coupling_metadata
  coupling_metadata-active ports [] nominal e = e
  coupling_metadata-active ports (name ∷ names) nominal e =
      elim (Option-cases (lookup name ports)) [
        | inl f ↦ rw (f, coupling_metadata) (coupling_metadata-active ports names nominal e)
        | inr (port, f) ↦ elim (Bool-cases (coupling_is_active signals objects port.metadata)) [
          | inl h ↦ rw (f, coupling_metadata, h) h
          | inr h ↦
              rw (f, coupling_metadata, h)
                (coupling_metadata-active ports names
                  (if holds signals objects (get signals objects "coupling_id" port.metadata)
                      && not (filled signals objects nominal)
                    then port.metadata
                    else nominal)
                  (kept port.metadata nominal h e _))
        ]
      ]

module _ (signals : Signals) (objects : Objects signals) (self : Module signals objects)
    (parameter : Parameter signals objects) (fault : Fields signals objects)
    (sample : BehaviorSample signals objects) where
  open signals use {Value}

  -- The metadata of a misbehaving coupling to one of the parameter's ports, or of a nominal one.
  abbrev pub coupled : Fields signals objects
  coupled = coupling_metadata signals objects self.input_ports parameter.input_port_names []

  abbrev own : Bool
  own = was_applied signals objects sample

  abbrev from_coupling : Bool
  from_coupling = coupling_is_active signals objects coupled && not own

  abbrev labelled : Fields signals objects
  labelled =
      merge
        (set_missing signals objects (identity_of signals objects self parameter) sample.metadata)
        (fault_labels signals objects parameter fault sample.metadata)

  abbrev named : Fields signals objects
  named =
      insert "coupling_id_label" (label signals objects (get signals objects "coupling_id" coupled))
        labelled

  abbrev pub labelled_sample : Fields signals objects
  labelled_sample = sample_metadata signals objects self parameter fault sample

  lookup-named :
      (key : String)
      → str_eq "coupling_id_label" key ≡ false
      → lookup key named
        ≡ latest key (fault_labels signals objects parameter fault sample.metadata) (
            lookup key (
              set_missing signals objects
                (identity_of signals objects self parameter)
                sample.metadata))
  lookup-named key e =
      lookup-insert key "coupling_id_label" _ labelled
      ∙ rw e (lookup-merge key (fault_labels signals objects parameter fault sample.metadata) _)

  lookup-sample_metadata :
      (key : String)
      → lookup key labelled_sample ≡ (
          if from_coupling
          then latest key (coupling_labels signals objects coupled) (lookup key named)
          else lookup key named)
  unfolding sample_metadata
  lookup-sample_metadata key = elim (Bool-cases from_coupling) [
    | inl e ↦ rw e (lookup-merge key (coupling_labels signals objects coupled) named)
    | inr e ↦ rw e refl
  ]

  -- The value of a key that both labellings set, by whether the coupling's is taken.
  chosen :
      (key : String) (theirs ours : Option Value)
      → ((found : Option (Option Value))
          → latest key (coupling_labels signals objects coupled) found ≡ some theirs)
      → lookup key named ≡ some ours
      → lookup key labelled_sample ≡ some (if from_coupling then theirs else ours)
  chosen key theirs ours a b =
      lookup-sample_metadata key
      ∙ elim (Bool-cases from_coupling) [ inl e ↦ rw e (a (lookup key named)) | inr e ↦ rw e b ]

  flag_or :
      (a o : Bool)
      → (if a && not o then of_flag signals objects true else of_flag signals objects o)
        ≡ of_flag signals objects (o || a)
  flag_or true true = refl
  flag_or true false = refl
  flag_or false true = refl
  flag_or false false = refl

  -- A key's own label, where neither misbehaves.
  unmarked :
      (key : String) (ours : Option Value)
      → own ≡ false
      → coupling_is_active signals objects coupled ≡ false
      → lookup key named ≡ some ours
      → lookup key labelled_sample ≡ some ours
  unmarked key ours o a e = lookup-sample_metadata key ∙ rw a e

  -- The labels of a sample, by whether its own misbehavior was applied and whether a coupling to
  -- one of the parameter's ports misbehaves.
  pub record IsLabelled (coupled_active : Bool) (out : Fields signals objects) : Type 0 where
    pub applied :
        lookup "misbehavior_applied" out ≡ some (of_flag signals objects (own || coupled_active))
    pub fault_applied : lookup "fault_applied" out ≡ lookup "misbehavior_applied" out
    pub fault_active : lookup "fault_active" out ≡ lookup "misbehavior_active" out
    pub active :
        lookup "misbehavior_active" out
        ≡ some (
            if coupled_active && not own
            then of_flag signals objects true
            else of_flag signals objects (filled signals objects fault))
    pub nominal :
        own ≡ false
        → coupled_active ≡ false
        → (lookup "anomaly_score_label" out ≡ some (zero_score signals objects))
          × ((lookup "anomaly_type_label" out ≡ some (of_text signals objects ""))
              × (lookup "event_misbehavior_label" out ≡ some (of_text signals objects "")))

  IsLabelled-coupled : IsLabelled (coupling_is_active signals objects coupled) labelled_sample
  unfolding fault_labels coupling_labels
  IsLabelled-coupled = record {
    applied =
        chosen "misbehavior_applied" _ _ (λ f. refl) (lookup-named "misbehavior_applied" refl)
        ∙ ap some (flag_or (coupling_is_active signals objects coupled) own);
    fault_applied =
        chosen "fault_applied" (of_flag signals objects true) (of_flag signals objects own)
          (λ f. refl) (lookup-named "fault_applied" refl)
        ∙ sym (
            chosen "misbehavior_applied" (of_flag signals objects true)
              (of_flag signals objects own) (λ f. refl) (lookup-named "misbehavior_applied" refl));
    fault_active =
        chosen "fault_active" (of_flag signals objects true)
          (of_flag signals objects (filled signals objects fault)) (λ f. refl)
          (lookup-named "fault_active" refl)
        ∙ sym (
            chosen "misbehavior_active" (of_flag signals objects true)
              (of_flag signals objects (filled signals objects fault)) (λ f. refl)
              (lookup-named "misbehavior_active" refl));
    active = chosen "misbehavior_active" _ _ (λ f. refl) (lookup-named "misbehavior_active" refl);
    nominal = λ o a. (
      unmarked "anomaly_score_label" _ o a (lookup-named "anomaly_score_label" refl ∙ rw o refl),
      (
        unmarked "anomaly_type_label" _ o a (lookup-named "anomaly_type_label" refl ∙ rw o refl),
        unmarked "event_misbehavior_label" _ o a
            (lookup-named "event_misbehavior_label" refl ∙ rw o refl),
      ),
    );
  }

  -- The misbehavior of a sample counts as applied exactly if its own was, or a coupling to one of
  -- the parameter's ports misbehaves; it is active if such a coupling stands in, or else if the
  -- parameter has a misbehavior; the fault labels say the same; and a sample with neither has no
  -- anomaly type, no event label and the score zero.
  pub sample_metadata-IsLabelled :
      IsLabelled
        (any (misbehaves signals objects self.input_ports) parameter.input_port_names)
        labelled_sample
  unfolding lookup
  sample_metadata-IsLabelled =
      subst (λ b. IsLabelled b labelled_sample)
        (coupling_metadata-active signals objects self.input_ports parameter.input_port_names []
          refl)
        IsLabelled-coupled
