-- ===== src/Sequences/Storage/Saved.antt =====
-- A sequence that registry.py of system/core/sequences saves is the one that it loads.
use capability_os.Base.{
  String, Bool, true, false, not, ◌&&◌, ◌||◌, Option, none, some, List, [], ◌∷◌, contains, ◌==◌,
  eq_iff, eq_refl, is_some, lookup, insert, keys, lookup-insert, lookup-own, contains-keys-insert,
  ◌≡◌, ◌⊎◌, refl, subst, ap, ◌∙◌, arith, Bool-cases, inl, inr,
}
use capability_os.Value.{Value}
use capability_os.Exec.{ok}
use capability_os.Container.Waits.{contains-append}
use capability_os.Sequences.{SequenceDefinition, to_dict, is_sequence_id, parse_sequence_definition}
use capability_os.Sequences.Accepted.{Result-cases}
use capability_os.Sequences.Valid.{parse-IsSequence}
use capability_os.Sequences.Printed.{parse-to_dict}
use capability_os.Sequences.Runner.{Raised, Tried, raised, done, validated, resolve_definition}
use capability_os.Sequences.Storage.{
  Entry, folder, broken, document, Repository, Store, precedes, place, sorted_set, write, named,
  path_for, save, load, list_ids, save_sequence, load_sequence,
}

contains-place :
    (x z : String) (xs : List String) → contains (place x xs) z ≡ x == z || contains xs z
unfolding place
contains-place x z [] = ground arith
contains-place x z (y ∷ ys) = elim (Bool-cases (x == y)) [
  | inl same ↦ let one = ap (λ w. w == z) ((eq_iff x y).0 same) in rw (same, place) (ground arith)
  | inr differs ↦ elim (Bool-cases (precedes x y)) [
    | inl first ↦ rw (differs, first, place) refl
    | inr later ↦ rw (differs, later, place) (ground (arith, contains-place x z ys))
  ]
]

contains-sorted_set : (z : String) (xs : List String) → contains (sorted_set xs) z ≡ contains xs z
unfolding sorted_set
contains-sorted_set z [] = refl
contains-sorted_set z (x ∷ xs) =
    contains-place x z (sorted_set xs) ∙ ap (λ b. x == z || b) (contains-sorted_set z xs)

tried_cases :
    {A : Type 0} (t : Tried A) → ((e : Raised) × (t ≡ raised e)) ⊎ ((a : A) × (t ≡ done a))
tried_cases (raised e) = inl (e, refl)
tried_cases (done a) = inr (a, refl)

validated-ok :
    (v : Value) (d : SequenceDefinition) → validated v ≡ done d → parse_sequence_definition v ≡ ok d
unfolding validated
validated-ok v d h = elim (Result-cases (parse_sequence_definition v)) [
  | inl (f, e) ↦ let bad = rw (e, validated) at h in cc
  | inr (d', e) ↦ let same = rw (e, validated) at h in let one : d' ≡ d = cc in e ∙ ap ok one
]

validated-to_dict :
    (v : Value) (d : SequenceDefinition)
    → parse_sequence_definition v ≡ ok d
    → validated (to_dict d) ≡ done d
unfolding validated
validated-to_dict v d h = rw (parse-to_dict d (parse-IsSequence v d h), validated) refl

module _ {W : Type 0} (inside : String → Bool) (repository : Option (Repository W)) where
  -- The store behind a sequence that is saved.
  pub record IsStored (v : Value) (overwrite : Bool) (s : Store W) (id : String) (s' : Store W)
      : Type 0 where
    pub definition : SequenceDefinition
    pub parsed : parse_sequence_definition v ≡ ok definition
    pub same_id : definition.sequence_id ≡ id
    pub allowed : (overwrite ≡ true) ⊎ (lookup id s.files ≡ none)
    pub loaded : load_sequence inside repository id s' ≡ done (to_dict definition)
    pub resolved :
        resolve_definition (λ k. load inside repository k s') (some id) none ≡ done definition
    pub listed : contains (list_ids inside repository s') id ≡ true
    pub others : (k : String) → id == k ≡ false → lookup k s'.files ≡ lookup k s.files

  abbrev pub IsSaveEnd : Value → Bool → Store W → Tried String × Store W → Type 0
  IsSaveEnd v overwrite s (raised e, s') = s' ≡ s
  IsSaveEnd v overwrite s (done id, s') = IsStored v overwrite s id s'

  path_for-same : (id path : String) → path_for inside repository id ≡ done path → path ≡ id
  unfolding path_for
  path_for-same id path h = elim (Bool-cases (is_sequence_id id)) [
    | inr bad ↦ let no = rw (bad, path_for) at h in cc
    | inl good ↦ elim (Bool-cases (inside id)) [
      | inr out ↦ let no = rw (good, out, path_for) at h in cc
      | inl in_it ↦ let yes_done = rw (good, in_it, path_for) at h in cc
    ]
  ]

  is_stored :
      (v : Value) (overwrite : Bool) (d : SequenceDefinition) (s : Store W) (w : W)
      → parse_sequence_definition v ≡ ok d
      → path_for inside repository d.sequence_id ≡ done d.sequence_id
      → (overwrite ≡ true) ⊎ (lookup d.sequence_id s.files ≡ none)
      → IsStored v overwrite s d.sequence_id
          (record { files = insert d.sequence_id (document (to_dict d)) s.files; world = w })
  unfolding load load_sequence resolve_definition list_ids
  is_stored v overwrite d s w parsed path allowed =
      let id = d.sequence_id in
      let new = document (to_dict d) in
      let own = lookup-own id new s.files in
      let again = validated-to_dict v d parsed in
      record {
        definition = d;
        parsed = parsed;
        same_id = refl;
        allowed = allowed;
        loaded = rw (path, load) (rw (own, load) (rw again refl));
        resolved = rw (path, load) (rw (own, load) (rw again again));
        listed =
            contains-sorted_set id _
            ∙ contains-append (keys (insert id new s.files)) _ id
            ∙ rw (contains-keys-insert id id new s.files, eq_refl id) (ground arith);
        others = λ k other. lookup-insert id k new s.files ∙ rw other refl;
      }

  written :
      (v : Value) (overwrite : Bool) (d : SequenceDefinition) (s : Store W) (there : Option Entry)
      → parse_sequence_definition v ≡ ok d
      → path_for inside repository d.sequence_id ≡ done d.sequence_id
      → lookup d.sequence_id s.files ≡ there
      → is_some there && not overwrite ≡ false
      → IsSaveEnd v overwrite s
          (named inside repository d (write inside repository there d.sequence_id (to_dict d) s))
  unfolding write
  written v overwrite d s none parsed path found may =
      is_stored v overwrite d s _ parsed path (inr found)
  written v overwrite d s (some folder) parsed path found may = refl
  written v overwrite d s (some broken) parsed path found may =
      is_stored v overwrite d s _ parsed path (inl (ground arith))
  written v overwrite d s (some (document x)) parsed path found may =
      is_stored v overwrite d s _ parsed path (inl (ground arith))

  saved :
      (v : Value) (overwrite : Bool) (d : SequenceDefinition) (s : Store W)
      → parse_sequence_definition v ≡ ok d
      → IsSaveEnd v overwrite s
          (named inside repository d (save inside repository d.sequence_id (to_dict d) overwrite s))
  unfolding save
  saved v overwrite d s parsed =
      let id = d.sequence_id in
      elim (tried_cases (path_for inside repository id)) [
        | inl (e, h) ↦ rw (h, save) refl
        | inr (path, h) ↦
            let good =
              subst (λ x. path_for inside repository id ≡ done x) (path_for-same id path h) h in
            let there = lookup id s.files in
            elim (Bool-cases (is_some there && not overwrite)) [
              | inl forbidden ↦ rw (good, save) (rw forbidden refl)
              | inr may ↦
                  rw (good, save) (rw may (written v overwrite d s there parsed good refl may))
            ]
      ]

  -- A sequence that is saved is accepted, and no other of its id is there, unless it may be overwritten;
  -- then its definition is loaded under its id, by the registry and by the runner, its id is listed, and
  -- the files of all other ids are as before. Where saving raises, nothing has changed.
  pub save_sequence-IsSaveEnd :
      (v : Value) (overwrite : Bool) (s : Store W)
      → IsSaveEnd v overwrite s (save_sequence inside repository v overwrite s)
  unfolding save_sequence
  save_sequence-IsSaveEnd v overwrite s = elim (tried_cases (validated v)) [
    | inl (e, h) ↦ rw (h, save_sequence) refl
    | inr (d, h) ↦ rw (h, save_sequence) (saved v overwrite d s (validated-ok v d h))
  ]
