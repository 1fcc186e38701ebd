-- ===== src/Sequences/Storage/Tests.antt =====
-- Runs of system/core/sequences/registry.py over storage.py.
use capability_os.Base.{
  String, Bool, true, false, none, some, [], ◌∷◌, ◌≡◌, refl, ◌==◌, if◌then◌else◌, ℕ, ◌+◌,
}
use capability_os.Value.{text, end, field}
use capability_os.Sequences.{SequenceStep, SequenceDefinition, to_dict}
use capability_os.Sequences.Runner.{done}
use capability_os.Sequences.Storage.{
  folder, broken, document, Repository, Store, storage_error, save_sequence, load_sequence,
  list_ids,
}
use capability_os.Sequences.Storage.Saved.{IsSaveEnd, save_sequence-IsSaveEnd}

abbrev step : SequenceStep
step = record {
  step_id = "a";
  capability = "read_file";
  inputs = field "path" (text "{{inputs.path}}") end;
}

abbrev daily : String → SequenceDefinition
daily name = record { sequence_id = "daily_build"; name = name; steps = step ∷ [] }

abbrev inside : String → Bool
inside id = true

-- The repository counts what it saves, and holds one sequence of its own.
abbrev repository : Repository ℕ
repository = record {
  save = λ id v w. w + 1;
  load = λ id w. if id == "nightly" then some (to_dict (daily "Nightly")) else none;
  list_ids = λ w. "nightly" ∷ "archive" ∷ [];
}

abbrev before : Store ℕ
before = record { files = ("nightly", broken) ∷ ("b", folder) ∷ []; world = 0 }

abbrev after : Store ℕ
after = record {
  files =
      ("nightly", broken)
      ∷ ("b", folder)
      ∷ ("daily_build", document (to_dict (daily "Daily")))
      ∷ [];
  world = 1;
}

saved :
    save_sequence inside (some repository) (to_dict (daily "Daily")) false before
    ≡ (done "daily_build", after)
unfolding save_sequence
saved = refl

not_again :
    save_sequence inside (some repository) (to_dict (daily "Other")) false after
    ≡ (storage_error "Sequence 'daily_build' already exists.", after)
unfolding save_sequence
not_again = refl

overwritten :
    (save_sequence inside (some repository) (to_dict (daily "Other")) true after).0
    ≡ done "daily_build"
unfolding save_sequence
overwritten = refl

loaded : load_sequence inside (some repository) "daily_build" after ≡ done (to_dict (daily "Daily"))
unfolding load_sequence
loaded = refl

-- A file that is broken hides the sequence of the database.
broken_hides :
    load_sequence inside (some repository) "nightly" after
    ≡ storage_error "Sequence 'nightly' contains invalid JSON."
unfolding load_sequence
broken_hides = refl

listed : list_ids inside (some repository) after ≡ "archive" ∷ "b" ∷ "daily_build" ∷ "nightly" ∷ []
unfolding list_ids
listed = refl

save_sequence-IsSaveEnd_example :
    IsSaveEnd inside
      (some repository)
      (to_dict (daily "Daily"))
      false
      before
      (save_sequence inside (some repository) (to_dict (daily "Daily")) false before)
save_sequence-IsSaveEnd_example =
    save_sequence-IsSaveEnd inside (some repository) (to_dict (daily "Daily")) false before
