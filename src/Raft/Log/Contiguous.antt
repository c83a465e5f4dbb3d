-- ===== src/Raft/Log/Contiguous.antt =====
-- The indices of log.py: entries stand at the indices just above the snapshot, without a gap.
-- Each operation keeps this, and what it does to the log is told by `get` at every index.
use native.Mathlib.Nat.{add-zero}
use container_platform.Prelude.{
  ℕ, zero, suc, ◌+◌, ◌≤◌, ◌≡◌, some, List, [], ◌∷◌, ◌++◌, arith, length, get_elem?, take, drop,
}
use container_platform.Raft.Log.{LogEntry, RaftLog, last, last_index}

-- The entries have the indices `offset + 1`, `offset + 2` and so on.
abbrev pub IsContiguous : ℕ → List LogEntry → Type 0
IsContiguous offset [] = Unit
IsContiguous offset (e ∷ es) = (e.index ≡ suc offset) × IsContiguous (suc offset) es

abbrev pub IsWellFormed : RaftLog → Type 0
IsWellFormed l = IsContiguous l.snapshot_last_index l.entries

last-IsContiguous :
    (offset : ℕ) (es : List LogEntry)
    → IsContiguous offset es
    → last offset (λ e. e.index) es ≡ offset + length es
unfolding last
last-IsContiguous offset [] h = omega arith
last-IsContiguous offset (e ∷ es) h = rw h.0 (omega (arith, last-IsContiguous (suc offset) es h.1))

pub IsContiguous-append :
    (offset : ℕ) (es fs : List LogEntry)
    → IsContiguous offset es
    → IsContiguous (offset + length es) fs
    → IsContiguous offset (es ++ fs)
IsContiguous-append offset [] fs h k = rw add-zero at k
IsContiguous-append offset (e ∷ es) fs h k =
    let q : offset + suc (length es) ≡ suc offset + length es = omega arith in
    (h.0, IsContiguous-append (suc offset) es fs h.1 (rw q at k))

pub IsContiguous-take :
    (offset n : ℕ) (es : List LogEntry) → IsContiguous offset es → IsContiguous offset (take n es)
IsContiguous-take offset zero es h = tt
IsContiguous-take offset (suc n) [] h = tt
IsContiguous-take offset (suc n) (e ∷ es) h = (h.0, IsContiguous-take (suc offset) n es h.1)

pub IsContiguous-drop :
    (offset n : ℕ) (es : List LogEntry)
    → n ≤ length es
    → IsContiguous offset es
    → IsContiguous (offset + n) (drop n es)
IsContiguous-drop offset zero es k h = rw add-zero h
IsContiguous-drop offset (suc n) [] k h = elim k [ ]
IsContiguous-drop offset (suc n) (e ∷ es) k h =
    let q : offset + suc n ≡ suc offset + n = omega arith in
    rw q (IsContiguous-drop (suc offset) n es (omega arith) h.1)

pub IsContiguous-get_elem? :
    (offset : ℕ) (es : List LogEntry) (i : ℕ) {e : LogEntry}
    → IsContiguous offset es
    → get_elem? es i ≡ some e
    → e.index ≡ suc offset + i
IsContiguous-get_elem? offset [] i h g = cc
IsContiguous-get_elem? offset (x ∷ es) zero h g = ground (arith, h.0)
IsContiguous-get_elem? offset (x ∷ es) (suc i) h g =
    omega (arith, IsContiguous-get_elem? (suc offset) es i h.1 g)

module _ (l : RaftLog) (wf : IsWellFormed l) where
  pub last_index-IsWellFormed : last_index l ≡ l.snapshot_last_index + length l.entries
  unfolding last_index
  last_index-IsWellFormed = last-IsContiguous l.snapshot_last_index l.entries wf
