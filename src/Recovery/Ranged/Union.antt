-- ===== src/Recovery/Ranged/Union.antt =====
-- The union of the parts' tombstones: an entry is hidden by it exactly if some part hides it.
use bytecaskdb.Prelude.{
  ltb, if◌then◌else◌, Bool-cases, All-map, Any, ℕ, ◌<◌, ◌≡◌, ◌⊎◌, ◌↔◌, refl, sym, subst, ◌∙◌, inl,
  inr, true, not, List, [], ◌∷◌, ◌++◌, arith, ap,
}
use bytecaskdb.KeyOrder.{Bytes, key_lt, key_eq, key_eq_iff, key_lt_total, key_lt_trans}
use bytecaskdb.Recovery.Needed.{RangeTombstone}
use bytecaskdb.Recovery.Merge.{PointTombstone, Tombstones, note_delete}
use bytecaskdb.Recovery.Merge.Covered.{IsCovered}
use bytecaskdb.Recovery.Build.{RecoveryResult}
use bytecaskdb.Recovery.Ranged.Load.{Union, no_parts, union_part, union_parts, union_tombstones}
use bytecaskdb.Recovery.Ranged.Settled.{AllOver, Hides, IsDeleted, IsKeyed}

-- The slot that a sequence is noted in first.
abbrev fresh : ℕ → ℕ → PointTombstone
fresh seq file =
    if ltb 0 seq then record { seq = seq; file_id = file } else record { seq = 0; file_id = 0 }

seq-fresh : (seq file : ℕ) → (fresh seq file).seq ≡ seq
seq-fresh seq file = elim (Bool-cases (ltb 0 seq)) [
  | inl over ↦ rw over refl
  | inr none_over ↦ rw none_over (ground (arith, none_over))
]

abbrev higher : ℕ → ℕ → PointTombstone → PointTombstone
higher seq file slot = if ltb slot.seq seq then record { seq = seq; file_id = file } else slot

over-higher :
    (s seq file : ℕ) (slot : PointTombstone)
    → s < (higher seq file slot).seq
    → (s < seq) ⊎ (s < slot.seq)
over-higher s seq file slot h = elim (Bool-cases (ltb slot.seq seq)) [
  | inl over ↦ let l : s < seq = rw over at h in inl l
  | inr under ↦ let l : s < slot.seq = rw under at h in inr l
]

higher-over :
    (s seq file : ℕ) (slot : PointTombstone)
    → ((s < seq) ⊎ (s < slot.seq))
    → s < (higher seq file slot).seq
higher-over s seq file slot h = elim (Bool-cases (ltb slot.seq seq)) [
  | inl over ↦ rw over (elim h [ inl l ↦ l | inr l ↦ ground (arith, over, l) ])
  | inr under ↦ rw under (elim h [ inl l ↦ ground (arith, under, l) | inr l ↦ l ])
]

abbrev Noted : Bytes → ℕ → Bytes → ℕ → Tombstones → Type 0
Noted key s k seq ts = ((k ≡ key) × (s < seq)) ⊎ IsDeleted key s ts

IsDeleted-noted :
    (key : Bytes) (s : ℕ) (k : Bytes) (seq file : ℕ) (ts : Tombstones)
    → IsDeleted key s (note_delete k seq file ts)
    → Noted key s k seq ts
unfolding note_delete
IsDeleted-noted key s k seq file [] (inl (is, l)) =
    inl (is, subst (λ n. s < n) (seq-fresh seq file) l)
IsDeleted-noted key s k seq file [] (inr h) = absurd h
IsDeleted-noted key s k seq file ((j, slot) ∷ ts) h = elim (Bool-cases (key_lt j k)) [
  | inl low ↦
      let h' : IsDeleted key s ((j, slot) ∷ note_delete k seq file ts) = rw low at h in
      elim h' [
        | inl here ↦ inr (inl here)
        | inr later ↦ elim (IsDeleted-noted key s k seq file ts later) [
          | inl new ↦ inl new
          | inr old ↦ inr (inr old)
        ]
      ]
  | inr high ↦ elim (Bool-cases (key_eq j k)) [
    | inl same ↦
        let h' : IsDeleted key s ((j, higher seq file slot) ∷ ts) = rw (high, same) at h in
        elim h' [
          | inl (is, l) ↦ elim (over-higher s seq file slot l) [
            | inl new ↦ inl (sym ((key_eq_iff j k).0 same) ∙ is, new)
            | inr old ↦ inr (inl (is, old))
          ]
          | inr later ↦ inr (inr later)
        ]
    | inr other ↦
        let h' : IsDeleted key s ((k, fresh seq file) ∷ (j, slot) ∷ ts) = rw (high, other) at h in
        elim h' [
          | inl (is, l) ↦ inl (is, subst (λ n. s < n) (seq-fresh seq file) l)
          | inr later ↦ inr later
        ]
  ]
]

noted-IsDeleted :
    (key : Bytes) (s : ℕ) (k : Bytes) (seq file : ℕ) (ts : Tombstones)
    → Noted key s k seq ts
    → IsDeleted key s (note_delete k seq file ts)
unfolding note_delete
noted-IsDeleted key s k seq file [] (inl (is, l)) =
    inl (is, subst (λ n. s < n) (sym (seq-fresh seq file)) l)
noted-IsDeleted key s k seq file [] (inr h) = absurd h
noted-IsDeleted key s k seq file ((j, slot) ∷ ts) h =
    let rest = noted-IsDeleted key s k seq file ts in
    elim (Bool-cases (key_lt j k)) [
      | inl low ↦ rw low (elim h [
        | inl new ↦ inr (rest (inl new))
        | inr (inl here) ↦ inl here
        | inr (inr later) ↦ inr (rest (inr later))
      ])
      | inr high ↦ elim (Bool-cases (key_eq j k)) [
        | inl same ↦
            rw (high, same)
              (elim h [
                | inl (is, l) ↦
                    inl ((key_eq_iff j k).0 same ∙ is, higher-over s seq file slot (inl l))
                | inr (inl (is, l)) ↦ inl (is, higher-over s seq file slot (inr l))
                | inr (inr later) ↦ inr later
              ])
        | inr other ↦
            rw (high, other)
              (elim h [
                | inl (is, l) ↦ inl (is, subst (λ n. s < n) (sym (seq-fresh seq file)) l)
                | inr later ↦ inr later
              ])
      ]
    ]

AllOver-note_delete :
    (i k : Bytes) (seq file : ℕ) (ts : Tombstones)
    → key_lt i k ≡ true
    → AllOver i ts
    → AllOver i (note_delete k seq file ts)
unfolding note_delete
AllOver-note_delete i k seq file [] up h = (up, tt)
AllOver-note_delete i k seq file ((j, slot) ∷ ts) up h =
    let rest = AllOver-note_delete i k seq file ts up h.1 in
    elim (Bool-cases (key_lt j k)) [
      | inl low ↦ rw low (h.0, rest)
      | inr high ↦ elim (Bool-cases (key_eq j k)) [
        | inl same ↦ rw (high, same) (h.0, h.1)
        | inr other ↦ rw (high, other) (up, h)
      ]
    ]

note_delete-IsKeyed :
    (k : Bytes) (seq file : ℕ) (ts : Tombstones) → IsKeyed ts → IsKeyed (note_delete k seq file ts)
unfolding note_delete
note_delete-IsKeyed k seq file [] h = (tt, tt)
note_delete-IsKeyed k seq file ((j, slot) ∷ ts) h =
    let rest = note_delete-IsKeyed k seq file ts h.1 in
    elim (Bool-cases (key_lt j k)) [
      | inl low ↦ rw low (AllOver-note_delete j k seq file ts low h.0, rest)
      | inr high ↦ elim (Bool-cases (key_eq j k)) [
        | inl same ↦ rw (high, same) h
        | inr other ↦
            let up : key_lt k j ≡ true = key_lt_total j k other ∙ ap not high in
            let over =
              All-map (λ t. key_lt j t.0 ≡ true) (λ t. key_lt k t.0 ≡ true)
                (λ t l. key_lt_trans k j t.0 up l) ts h.0 in
            rw (high, other) ((up, over), h)
      ]
    ]

union-IsDeleted :
    (key : Bytes) (s : ℕ) (all_tombs ts : Tombstones)
    → IsDeleted key s (union_tombstones all_tombs ts)
    → IsDeleted key s all_tombs ⊎ IsDeleted key s ts
unfolding union_tombstones
union-IsDeleted key s all_tombs [] h = inl h
union-IsDeleted key s all_tombs ((k, t) ∷ ts) h =
    elim (union-IsDeleted key s (note_delete k t.seq t.file_id all_tombs) ts h) [
      | inl d ↦ elim (IsDeleted-noted key s k t.seq t.file_id all_tombs d) [
        | inl new ↦ inr (inl new)
        | inr old ↦ inl old
      ]
      | inr later ↦ inr (inr later)
    ]

IsDeleted-union :
    (key : Bytes) (s : ℕ) (all_tombs ts : Tombstones)
    → (IsDeleted key s all_tombs ⊎ IsDeleted key s ts)
    → IsDeleted key s (union_tombstones all_tombs ts)
unfolding union_tombstones
IsDeleted-union key s all_tombs [] h = elim h [ inl d ↦ d | inr d ↦ absurd d ]
IsDeleted-union key s all_tombs ((k, t) ∷ ts) h =
    let next = note_delete k t.seq t.file_id all_tombs in
    IsDeleted-union key s next ts (elim h [
      | inl d ↦ inl (noted-IsDeleted key s k t.seq t.file_id all_tombs (inr d))
      | inr (inl new) ↦ inl (noted-IsDeleted key s k t.seq t.file_id all_tombs (inl new))
      | inr (inr later) ↦ inr later
    ])

union_tombstones-IsKeyed :
    (all_tombs ts : Tombstones) → IsKeyed all_tombs → IsKeyed (union_tombstones all_tombs ts)
unfolding union_tombstones
union_tombstones-IsKeyed all_tombs [] h = h
union_tombstones-IsKeyed all_tombs ((k, t) ∷ ts) h =
    union_tombstones-IsKeyed (note_delete k t.seq t.file_id all_tombs) ts
      (note_delete-IsKeyed k t.seq t.file_id all_tombs h)

IsCovered-append :
    (key : Bytes) (s : ℕ) (xs ys : List RangeTombstone)
    → IsCovered key s (xs ++ ys)
    → IsCovered key s xs ⊎ IsCovered key s ys
IsCovered-append key s [] ys h = inr h
IsCovered-append key s (x ∷ xs) ys (inl here) = inl (inl here)
IsCovered-append key s (x ∷ xs) ys (inr h) = elim (IsCovered-append key s xs ys h) [
  | inl c ↦ inl (inr c)
  | inr c ↦ inr c
]

append-IsCovered :
    (key : Bytes) (s : ℕ) (xs ys : List RangeTombstone)
    → (IsCovered key s xs ⊎ IsCovered key s ys)
    → IsCovered key s (xs ++ ys)
append-IsCovered key s [] ys h = elim h [ inl c ↦ absurd c | inr c ↦ c ]
append-IsCovered key s (x ∷ xs) ys (inl (inl here)) = inl here
append-IsCovered key s (x ∷ xs) ys (inl (inr c)) = inr (append-IsCovered key s xs ys (inl c))
append-IsCovered key s (x ∷ xs) ys (inr c) = inr (append-IsCovered key s xs ys (inr c))

-- Some part has a tombstone that hides an entry of the key with the sequence.
abbrev pub HiddenBy : Bytes → List RecoveryResult → ℕ → Type 0
HiddenBy key parts seq = Any (λ p. Hides key p.tombstones p.range_tombstones seq) parts

abbrev HiddenIn : Bytes → Union → List RecoveryResult → ℕ → Type 0
HiddenIn key u parts seq = Hides key u.tombstones u.ranges seq ⊎ HiddenBy key parts seq

union_parts-HiddenIn :
    (key : Bytes) (s : ℕ) (u : Union) (parts : List RecoveryResult)
    → Hides key (union_parts u parts).tombstones (union_parts u parts).ranges s
    → HiddenIn key u parts s
unfolding union_parts union_part
union_parts-HiddenIn key s u [] h = inl h
union_parts-HiddenIn key s u (part ∷ parts) h =
    elim (union_parts-HiddenIn key s (union_part u part) parts h) [
      | inl (inl d) ↦ elim (union-IsDeleted key s u.tombstones part.tombstones d) [
        | inl of_u ↦ inl (inl of_u)
        | inr of_part ↦ inr (inl (inl of_part))
      ]
      | inl (inr c) ↦ elim (IsCovered-append key s u.ranges part.range_tombstones c) [
        | inl of_u ↦ inl (inr of_u)
        | inr of_part ↦ inr (inl (inr of_part))
      ]
      | inr later ↦ inr (inr later)
    ]

HiddenIn-union_parts :
    (key : Bytes) (s : ℕ) (u : Union) (parts : List RecoveryResult)
    → HiddenIn key u parts s
    → Hides key (union_parts u parts).tombstones (union_parts u parts).ranges s
unfolding union_parts union_part
HiddenIn-union_parts key s u [] h = elim h [ inl of_u ↦ of_u | inr none_is ↦ absurd none_is ]
HiddenIn-union_parts key s u (part ∷ parts) h =
    let tombs = IsDeleted-union key s u.tombstones part.tombstones in
    let ranges = append-IsCovered key s u.ranges part.range_tombstones in
    HiddenIn-union_parts key s (union_part u part) parts (elim h [
      | inl (inl d) ↦ inl (inl (tombs (inl d)))
      | inl (inr c) ↦ inl (inr (ranges (inl c)))
      | inr (inl (inl d)) ↦ inl (inl (tombs (inr d)))
      | inr (inl (inr c)) ↦ inl (inr (ranges (inr c)))
      | inr (inr later) ↦ inr later
    ])

union_onto-IsKeyed :
    (u : Union) (parts : List RecoveryResult)
    → IsKeyed u.tombstones
    → IsKeyed (union_parts u parts).tombstones
unfolding union_parts union_part
union_onto-IsKeyed u [] h = h
union_onto-IsKeyed u (part ∷ parts) h =
    union_onto-IsKeyed (union_part u part) parts
      (union_tombstones-IsKeyed u.tombstones part.tombstones h)

pub union_parts-IsKeyed :
    (parts : List RecoveryResult) → IsKeyed (union_parts no_parts parts).tombstones
union_parts-IsKeyed parts = union_onto-IsKeyed no_parts parts tt

-- The union hides what some part hides, and nothing else.
pub union_parts-HiddenBy :
    (key : Bytes) (s : ℕ) (parts : List RecoveryResult)
    → Hides key (union_parts no_parts parts).tombstones (union_parts no_parts parts).ranges s
      ↔ HiddenBy key parts s
union_parts-HiddenBy key s parts = (
  λ h. elim (union_parts-HiddenIn key s no_parts parts h) [
    | inl (inl d) ↦ absurd d
    | inl (inr c) ↦ absurd c
    | inr by ↦ by
  ],
  λ h. HiddenIn-union_parts key s no_parts parts (inr h),
)
