-- ===== src/Sequences/Storage.antt =====
-- system/core/sequences/storage.py and registry.py: the stored sequences. A folder has an entry for each
-- id; a JSON text stands for its document. Which paths leave the folder, and the repository in the
-- database, are arguments; that the folder is set, and where, is left out.
pub mod Saved
mod Tests
use Prim.Native.Char.{code}
use Prim.Native.String
use capability_os.Base.{
  String, Bool, true, false, not, ◌&&◌, ◌||◌, Option, none, some, List, [], ◌∷◌, ◌++◌, ltb, eqb,
  ◌==◌, if◌then◌else◌, ◌⋯◌, is_some, Dict, lookup, insert, keys,
}
use capability_os.Value.{Value}
use capability_os.Sequences.{SequenceDefinition, to_dict, is_sequence_id}
use capability_os.Sequences.Runner.{
  Raised, Tried, raised, done, sequence_storage, other, validated, validated_value,
}

-- What is at a path: a folder, a file that holds no JSON, or one that holds a document.
pub data Entry : Type 0 where
  folder broken : Entry
  document : Value → Entry

-- The repository, in a world that holds the database. What raises changes nothing, and gives nothing.
pub record Repository (W : Type 0) : Type 0 where
  pub save : String → Value → W → W
  pub load : String → W → Option Value
  pub list_ids : W → List String

pub record Store (W : Type 0) : Type 0 where
  pub files : Dict Entry
  pub world : W

abbrev pub storage_error : {A : Type 0} → String → Tried A
storage_error message = raised (record { class = sequence_storage; message = message })

-- The order of texts, by code points.
unfoldable pub precedes : String → String → Bool
precedes String.[] String.[] = false
precedes String.[] (String.◌∷◌ d t) = true
precedes (String.◌∷◌ c s) String.[] = false
precedes (String.◌∷◌ c s) (String.◌∷◌ d t) =
    ltb (code c) (code d) || (eqb (code c) (code d) && precedes s t)

unfoldable pub place : String → List String → List String
unfolding precedes
place x [] = x ∷ []
place x (y ∷ ys) =
    let rest = place x ys in
    if x == y then y ∷ ys else if precedes x y then x ∷ y ∷ ys else y ∷ rest

-- sorted(set(ids))
unfoldable pub sorted_set : List String → List String
unfolding place
sorted_set [] = []
sorted_set (x ∷ xs) = place x (sorted_set xs)

module _ {W : Type 0} (inside : String → Bool) (repository : Option (Repository W)) where
  -- `_path_for`; an id stands for its path.
  unfoldable pub path_for : String → Tried String
  unfolding is_sequence_id
  path_for id =
      if not (is_sequence_id id)
      then storage_error "Sequence id must be snake_case (e.g. 'daily_build_sequence')."
      else if inside id
      then done id
      else storage_error "Sequence path is outside workspace."

  abbrev pub mirrored : String → Value → W → W
  mirrored id definition w = elim repository [ none ↦ w | some r ↦ r.save id definition w ]

  -- A text cannot be written to a folder.
  abbrev pub write : Option Entry → String → Value → Store W → Tried (Unit {0}) × Store W
  unfolding insert
  write (some folder) id definition s =
      (raised (record { class = other; message = "Is a directory" }), s)
  write there id definition s = (
    done tt,
    record {
      files = insert id (document definition) s.files;
      world = mirrored id definition s.world;
    },
  )

  unfoldable pub save : String → Value → Bool → Store W → Tried (Unit {0}) × Store W
  unfolding path_for write lookup
  save id definition overwrite s = elim (path_for id) [
    | raised e ↦ (raised e, s)
    | done path ↦
        let there = lookup path s.files in
        if is_some there && not overwrite
        then (storage_error ("Sequence '" ⋯ id ⋯ "' already exists."), s)
        else write there path definition s
  ]

  abbrev pub stored : String → Option Value → Tried Value
  stored id none = storage_error ("Sequence '" ⋯ id ⋯ "' does not exist.")
  stored id (some v) = done v

  abbrev pub from_repository : String → W → Option Value
  from_repository id w = elim repository [ none ↦ none | some r ↦ r.load id w ]

  abbrev pub read : String → Option Entry → W → Tried Value
  read id (some (document v)) w = done v
  read id (some broken) w = storage_error ("Sequence '" ⋯ id ⋯ "' contains invalid JSON.")
  read id there w = stored id (from_repository id w)

  unfoldable pub load : String → Store W → Tried Value
  unfolding path_for lookup
  load id s = elim (path_for id) [
    | raised e ↦ raised e
    | done path ↦ read id (lookup path s.files) s.world
  ]

  unfoldable pub list_ids : Store W → List String
  unfolding sorted_set keys
  list_ids s =
      sorted_set (keys s.files ++ (elim repository [ none ↦ [] | some r ↦ r.list_ids s.world ]))

  -- The registry.
  abbrev pub named : SequenceDefinition → Tried (Unit {0}) × Store W → Tried String × Store W
  named d (raised e, s) = (raised e, s)
  named d (done u, s) = (done d.sequence_id, s)

  unfoldable pub save_sequence : Value → Bool → Store W → Tried String × Store W
  unfolding validated save to_dict
  save_sequence v overwrite s = elim (validated v) [
    | raised e ↦ (raised e, s)
    | done d ↦ named d (save d.sequence_id (to_dict d) overwrite s)
  ]

  abbrev pub printed : Tried SequenceDefinition → Tried Value
  unfolding to_dict
  printed (raised e) = raised e
  printed (done d) = done (to_dict d)

  unfoldable pub load_sequence : String → Store W → Tried Value
  unfolding validated_value load printed
  load_sequence id s = printed (validated_value (load id s))
