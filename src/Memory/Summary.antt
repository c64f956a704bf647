-- ===== src/Memory/Summary.antt =====
-- src/memory.rs: the totals by kind that the `meminfo` command prints.
use agnost_os.Base.{
  ℕ, ◌+◌, ◌≤◌, ◌≡◌, refl, Bool, true, false, List, [], ◌∷◌, ◌++◌, arith, if◌then◌else◌, ok, length,
  All, u64_max, saturating,
}
use agnost_os.Memory.{MemoryRange, MemoryKind, Snapshot, reserve_range}
use agnost_os.Memory.MemoryKind.{
  usable, kernel, firmware, acpi, device, runtime, unusable, reserved,
}
use agnost_os.Memory.Pieces.{IsRange, kept, pieces}
use agnost_os.Memory.Reserve.{IsMap, rewritten, reserve_range-ok, reserve_loop-ok}

pub record MemorySummary : Type 0 where
  pub ranges : ℕ
  pub usable_bytes : ℕ
  pub kernel_bytes : ℕ
  pub firmware_bytes : ℕ
  pub acpi_bytes : ℕ
  pub device_bytes : ℕ
  pub runtime_bytes : ℕ
  pub reserved_bytes : ℕ
  pub unusable_bytes : ℕ

-- One turn of the loop of `summary`: the range's length goes to the total of its kind.
unfoldable pub add_bytes : MemorySummary → MemoryKind → ℕ → MemorySummary
add_bytes s usable n = record s { usable_bytes = saturating (s.usable_bytes + n) }
add_bytes s kernel n = record s { kernel_bytes = saturating (s.kernel_bytes + n) }
add_bytes s firmware n = record s { firmware_bytes = saturating (s.firmware_bytes + n) }
add_bytes s acpi n = record s { acpi_bytes = saturating (s.acpi_bytes + n) }
add_bytes s device n = record s { device_bytes = saturating (s.device_bytes + n) }
add_bytes s runtime n = record s { runtime_bytes = saturating (s.runtime_bytes + n) }
add_bytes s unusable n = record s { unusable_bytes = saturating (s.unusable_bytes + n) }
add_bytes s reserved n = record s { reserved_bytes = saturating (s.reserved_bytes + n) }

unfoldable pub add_ranges : MemorySummary → List MemoryRange → MemorySummary
add_ranges s [] = s
add_ranges s (r ∷ rs) = add_ranges (add_bytes s r.kind r.length) rs

-- `MemorySummary::default()` with its number of ranges.
abbrev pub no_bytes : ℕ → MemorySummary
no_bytes n = record {
  ranges = n;
  usable_bytes = 0;
  kernel_bytes = 0;
  firmware_bytes = 0;
  acpi_bytes = 0;
  device_bytes = 0;
  runtime_bytes = 0;
  reserved_bytes = 0;
  unusable_bytes = 0;
}

unfoldable pub summary : Snapshot → MemorySummary
summary s = add_ranges (no_bytes (length s)) s

-- The total of one kind.
unfoldable pub bytes : MemorySummary → MemoryKind → ℕ
bytes s usable = s.usable_bytes
bytes s kernel = s.kernel_bytes
bytes s firmware = s.firmware_bytes
bytes s acpi = s.acpi_bytes
bytes s device = s.device_bytes
bytes s runtime = s.runtime_bytes
bytes s unusable = s.unusable_bytes
bytes s reserved = s.reserved_bytes

-- `==` on kinds.
unfoldable pub same_kind : MemoryKind → MemoryKind → Bool
same_kind usable usable = true
same_kind kernel kernel = true
same_kind firmware firmware = true
same_kind acpi acpi = true
same_kind device device = true
same_kind runtime runtime = true
same_kind unusable unusable = true
same_kind reserved reserved = true
same_kind _ _ = false

-- The lengths of all ranges, added up, and of those of one kind.
unfoldable pub total : List MemoryRange → ℕ
total [] = 0
total (r ∷ rs) = r.length + total rs

unfoldable pub total_of : MemoryKind → List MemoryRange → ℕ
total_of k [] = 0
total_of k (r ∷ rs) = (if same_kind r.kind k then r.length else 0) + total_of k rs

bytes-add_bytes :
    (s : MemorySummary) (j k : MemoryKind) (n : ℕ)
    → bytes s k + n ≤ u64_max
    → bytes (add_bytes s j n) k ≡ bytes s k + (if same_kind j k then n else 0)
unfolding bytes add_bytes same_kind
bytes-add_bytes s j k n h = ground arith

total_of-le : (k : MemoryKind) (rs : List MemoryRange) → total_of k rs ≤ total rs
unfolding total_of total
total_of-le k [] = omega arith
total_of-le k (r ∷ rs) = ground (arith, total_of-le k rs)

bytes-add_ranges :
    (s : MemorySummary) (k : MemoryKind) (rs : List MemoryRange)
    → bytes s k + total rs ≤ u64_max
    → bytes (add_ranges s rs) k ≡ bytes s k + total_of k rs
unfolding add_ranges total total_of
bytes-add_ranges s k [] h = omega arith
bytes-add_ranges s k (r ∷ rs) h =
    let e = bytes-add_bytes s r.kind k r.length (omega arith) in
    let le : bytes (add_bytes s r.kind r.length) k + total rs ≤ u64_max = ground (arith, e) in
    omega (arith, e, bytes-add_ranges (add_bytes s r.kind r.length) k rs le)

bytes-no_bytes : (n : ℕ) (k : MemoryKind) → bytes (no_bytes n) k ≡ 0
unfolding bytes
bytes-no_bytes n k = ground arith

-- While the ranges add up to less than 2^64 bytes, the total that the summary shows for a kind is
-- the sum of the lengths of the ranges of that kind: no counter saturates.
pub summary_lem :
    (s : Snapshot) (k : MemoryKind) → total s ≤ u64_max → bytes (summary s) k ≡ total_of k s
unfolding summary
summary_lem s k h =
    let z = bytes-no_bytes (length s) k in
    omega (arith, z, bytes-add_ranges (no_bytes (length s)) k s (omega (arith, z)))

-- The eight totals of a summary, added up.
abbrev pub all_bytes : MemorySummary → ℕ
all_bytes m =
    m.usable_bytes + m.kernel_bytes + m.firmware_bytes + m.acpi_bytes + m.device_bytes
    + m.runtime_bytes + m.unusable_bytes + m.reserved_bytes

total-append : (xs ys : List MemoryRange) → total (xs ++ ys) ≡ total xs + total ys
unfolding total
total-append [] ys = omega arith
total-append (r ∷ rs) ys = omega (arith, total-append rs ys)

total-kept : (v : MemoryRange) → total (kept v) ≡ v.length
unfolding total
total-kept v = ground arith

-- The totals of the kinds add up to the total.
total-kinds :
    (rs : List MemoryRange)
    → total_of usable rs
        + total_of kernel rs
        + total_of firmware rs
        + total_of acpi rs
        + total_of device rs
        + total_of runtime rs
        + total_of unusable rs
        + total_of reserved rs
      ≡ total rs
unfolding total total_of same_kind
total-kinds [] = omega arith
total-kinds (r ∷ rs) = ground (arith, total-kinds rs)

all_bytes-total : (s : Snapshot) → total s ≤ u64_max → all_bytes (summary s) ≡ total s
unfolding bytes
all_bytes-total s h =
    let u = summary_lem s usable h in
    let k = summary_lem s kernel h in
    let f = summary_lem s firmware h in
    let a = summary_lem s acpi h in
    let d = summary_lem s device h in
    let r = summary_lem s runtime h in
    let n = summary_lem s unusable h in
    let v = summary_lem s reserved h in omega (arith, u, k, f, a, d, r, n, v, total-kinds s)

module _ (start end : ℕ) (kind : MemoryKind) where
  total-pieces : (r : MemoryRange) → IsRange r → total (pieces start end kind r) ≡ r.length
  unfolding pieces total
  total-pieces r v = ground arith

  total-rewritten :
      (rs : List MemoryRange) → All IsRange rs → total (rewritten start end kind rs) ≡ total rs
  unfolding rewritten total
  total-rewritten [] v = refl
  total-rewritten (r ∷ rs) (v, vs) =
      let e = total-append (pieces start end kind r) (rewritten start end kind rs) in
      omega (arith, e, total-pieces r v, total-rewritten rs vs)

-- A reservation moves bytes between the kinds and neither gains nor loses any: while the ranges add
-- up to less than 2^64 bytes, the eight totals of the summary have the same sum before and after.
pub summary-reserve_range :
    (s : Snapshot) (start len : ℕ) (kind : MemoryKind) {s' : Snapshot}
    → IsMap s
    → total s ≤ u64_max
    → reserve_range s start len kind ≡ (ok tt, s')
    → all_bytes (summary s') ≡ all_bytes (summary s)
summary-reserve_range s start len kind {s'} v h e =
    let (_, _, l) = reserve_range-ok s start len kind e in
    let (eq, _) = reserve_loop-ok start (start + len) kind s [] false l in
    let t : total s' ≡ total s = rw eq (total-rewritten start (start + len) kind s v.ranges) in
    let a = all_bytes-total s h in
    let b = all_bytes-total s' (omega (arith, t)) in omega (arith, a, b, t)
