-- ===== src/Policy/Audit.antt =====
-- The audit log of system/sdk/policy.py.
use capability_os.Base.{
  ℕ, zero, suc, ◌-◌, ◌≤◌, ◌≡◌, refl, List, [], ◌∷◌, ◌++◌, length, drop, ltb, arith, length-append,
  length-drop, Bool-cases, inl, inr,
}
use capability_os.Policy.{
  PolicyEngine, AuditEntry, Request, Decision, trim, record_decision, evaluate,
}

length-trim : (log : List AuditEntry) → length (trim log) ≤ 5000
unfolding trim
length-trim log = elim (Bool-cases (ltb 5000 (length log))) [
  | inl long ↦ rw long (omega (arith, length-drop (length log - 2500) log))
  | inr short ↦ rw short (ground arith)
]

drop-snoc :
    (n : ℕ) (xs : List AuditEntry) (x : AuditEntry)
    → n ≤ length xs
    → drop n (xs ++ x ∷ []) ≡ drop n xs ++ x ∷ []
drop-snoc zero xs x h = refl
drop-snoc (suc n) [] x h = absurd (omega arith)
drop-snoc (suc n) (y ∷ xs) x h = drop-snoc n xs x (omega arith)

-- The log ends with the entry.
abbrev pub EndsWith : AuditEntry → List AuditEntry → Type 0
EndsWith x log = (older : List AuditEntry) × (log ≡ older ++ x ∷ [])

trim-EndsWith : (log : List AuditEntry) (x : AuditEntry) → EndsWith x (trim (log ++ x ∷ []))
unfolding trim
trim-EndsWith log x = elim (Bool-cases (ltb 5000 (length (log ++ x ∷ [])))) [
  | inl long ↦
      let n = length (log ++ x ∷ []) - 2500 in
      rw long (drop n log, drop-snoc n log x (omega (arith, length-append log (x ∷ []))))
  | inr short ↦ rw short (log, refl)
]

-- The entry that a decision leaves.
abbrev pub entry_of : Request → Decision → AuditEntry
entry_of q d = record {
  timestamp = q.time;
  permission = q.permission;
  plugin_id = q.plugin_id;
  user_role = q.user_role;
  decision = d;
}

-- An evaluation logs its own decision as the newest entry, and the log never holds more than 5000
-- entries after it, whatever it held before.
pub audit-evaluate :
    (q : Request) (e : PolicyEngine)
    → EndsWith (entry_of q (evaluate q e).0) (evaluate q e).1.audit
      × (length (evaluate q e).1.audit ≤ 5000)
unfolding evaluate record_decision
audit-evaluate q e = (trim-EndsWith e.audit _, length-trim (e.audit ++ _ ∷ []))
