-- ===== src/Findings/Counting.antt =====
-- What an identity counts, and how each change of the tables keeps it.
use mathlib.Core.List.{Memᴰ}
use kase_ai.Prelude.{
  ℕ, suc, String, ◌≡◌, refl, sym, ◌∙◌, inl, inr, Bool, true, false, List, [], ◌∷◌, ◌++◌, map, arith,
  ◌==◌, string_eq, any, contains, count_where, update_where, IsKeyed, IsKeyed-snoc, IsKeyed-update,
  IsKeyed-update_keys, contains-snoc, mem-snoc, mem-update_cases, Bool-cases, if◌then◌else◌,
}
use kase_ai.Findings.Persistence.{
  NormalizedFinding, FindingIdentity, Finding, FindingTables, seen_again, rated_again,
  counted_once_more,
}

abbrev pub identity_key : FindingIdentity → String
identity_key i = i.id

abbrev pub findings_of : String → List Finding → ℕ
findings_of id findings = count_where (λ f. f.identity_id == id) findings

-- The ids of identities are keys, each finding has its identity, and each identity counts its findings.
pub record IsCounted (db : FindingTables) : Type 0 where
  pub keyed : IsKeyed identity_key db.identities
  pub owned :
      (f : Finding)
      → Memᴰ f db.findings
      → contains (map identity_key db.identities) f.identity_id ≡ true
  pub counted :
      (i : FindingIdentity) → Memᴰ i db.identities → i.occurrences ≡ findings_of i.id db.findings

findings_of-snoc :
    (id : String) (fs : List Finding) (f : Finding)
    → findings_of id (fs ++ f ∷ [])
      ≡ (if f.identity_id == id then suc (findings_of id fs) else findings_of id fs)
findings_of-snoc id [] f = ground arith
findings_of-snoc id (g ∷ fs) f = ground (arith, findings_of-snoc id fs f)

findings_of-absent :
    (id : String) (fs : List Finding) (ids : List String)
    → ((f : Finding) → Memᴰ f fs → contains ids f.identity_id ≡ true)
    → contains ids id ≡ false
    → findings_of id fs ≡ 0
findings_of-absent id [] ids own fresh = refl
findings_of-absent id (f ∷ fs) ids own fresh =
    let rest = findings_of-absent id fs ids (λ g m. own g (Memᴰ.tail m)) fresh in
    elim (Bool-cases (f.identity_id == id)) [
      | inl hit ↦
          let mine = own f (Memᴰ.head refl) in
          let both : contains ids id ≡ true =
            rw (← (string_eq.eqb_iff f.identity_id id).0 hit) mine in
          ground (arith, both, fresh)
      | inr miss ↦ rw miss rest
    ]

findings_of-update :
    (id : String) (p : Finding → Bool) (g : Finding → Finding) (fs : List Finding)
    → ((f : Finding) → (g f).identity_id ≡ f.identity_id)
    → findings_of id (update_where p g fs) ≡ findings_of id fs
findings_of-update id p g [] k = refl
findings_of-update id p g (f ∷ fs) k = elim (Bool-cases (p f)) [
  | inl hit ↦ rw (hit, k f, findings_of-update id p g fs k) refl
  | inr miss ↦ rw (miss, findings_of-update id p g fs k) refl
]

pub fresh_key :
    (id : String) (is : List FindingIdentity)
    → any (λ i. i.id == id) is ≡ false
    → contains (map identity_key is) id ≡ false
fresh_key id [] h = refl
fresh_key id (i ∷ is) h = ground (arith, h, fresh_key id is)

-- A new identity has no findings yet.
pub created-IsCounted :
    (db : FindingTables) (i : FindingIdentity)
    → contains (map identity_key db.identities) i.id ≡ false
    → i.occurrences ≡ 0
    → IsCounted db
    → IsCounted (record db { identities = db.identities ++ i ∷ [] })
created-IsCounted db i fresh zero_yet h = record {
  keyed = IsKeyed-snoc identity_key db.identities i h.keyed fresh;
  owned = λ f m.
      let mine = h.owned f m in
      rw (contains-snoc identity_key db.identities i f.identity_id) (ground (arith, mine));
  counted = λ j m. elim (mem-snoc db.identities i j m) [
    | inl old ↦ h.counted j old
    | inr same ↦
        rw (same, zero_yet)
          (sym (findings_of-absent i.id db.findings (map identity_key db.identities) h.owned fresh))
  ];
}

-- A change that leaves the ids and the numbers of occurrences.
pub seen-IsCounted :
    (p : FindingIdentity → Bool) (audit_id : String) (f : NormalizedFinding) (db : FindingTables)
    → IsCounted db
    → IsCounted (record db { identities = update_where p (seen_again audit_id f) db.identities })
seen-IsCounted p audit_id f db h = record {
  keyed = IsKeyed-update identity_key p (seen_again audit_id f) db.identities (λ i. refl) h.keyed;
  owned = λ g m.
      rw (IsKeyed-update_keys identity_key p (seen_again audit_id f) db.identities (λ i. refl))
        (h.owned g m);
  counted = λ j m.
      let (i, k, c) = mem-update_cases p (seen_again audit_id f) db.identities j m in
      elim c [ inl (_, same) ↦ rw same (h.counted i k) | inr (_, same) ↦ rw same (h.counted i k) ];
}

pub rated-IsCounted :
    (p : Finding → Bool) (f : NormalizedFinding) (db : FindingTables)
    → IsCounted db
    → IsCounted (record db { findings = update_where p (rated_again f) db.findings })
rated-IsCounted p f db h = record {
  keyed = h.keyed;
  owned = λ g m.
      let (old, k, c) = mem-update_cases p (rated_again f) db.findings g m in
      elim c [ inl (_, same) ↦ rw same (h.owned old k) | inr (_, same) ↦ rw same (h.owned old k) ];
  counted = λ i m.
      h.counted i m ∙ sym (findings_of-update i.id p (rated_again f) db.findings (λ g. refl));
}

-- A new finding, which its identity counts.
pub occurred-IsCounted :
    (g : Finding) (db : FindingTables)
    → contains (map identity_key db.identities) g.identity_id ≡ true
    → IsCounted db
    → IsCounted (record db {
      identities = update_where (λ i. i.id == g.identity_id) counted_once_more db.identities;
      findings = db.findings ++ g ∷ [];
    })
occurred-IsCounted g db known h = record {
  keyed =
      IsKeyed-update identity_key (λ i. i.id == g.identity_id) counted_once_more db.identities
        (λ i. refl) h.keyed;
  owned = λ f m.
      rw
        (IsKeyed-update_keys identity_key (λ i. i.id == g.identity_id) counted_once_more
          db.identities (λ i. refl))
        (elim (mem-snoc db.findings g f m) [ inl old ↦ h.owned f old | inr same ↦ rw same known ]);
  counted = λ j m.
      let (i, k, c) =
        mem-update_cases (λ i. i.id == g.identity_id) counted_once_more db.identities j m in
      let before = h.counted i k in
      let more_now = findings_of-snoc i.id db.findings g in
      elim c [
        | inl (hit, same) ↦ rw same (
            ground (
              arith,
              hit,
              before,
              more_now,
              string_eq.eqb_iff i.id g.identity_id,
              string_eq.eqb_iff g.identity_id i.id,
            ))
        | inr (miss, same) ↦ rw same (
            ground (
              arith,
              miss,
              before,
              more_now,
              string_eq.eqb_iff i.id g.identity_id,
              string_eq.eqb_iff g.identity_id i.id,
            ))
      ];
}
