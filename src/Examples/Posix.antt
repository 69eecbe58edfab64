-- ===== src/Examples/Posix.antt =====
-- A table of 1024 descriptors that does what the manual says, with three files on the disk.
use urvirt.Common.{
  ℕ, zero, suc, ◌-◌, ◌^◌, ◌≤◌, ◌<◌, ◌≡◌, refl, ap, Bool, true, false, ◌==◌, ltb, if◌then◌else◌,
  Option, none, some, arith, Bool-cases, inl, inr,
}
use urvirt.Descriptors.{Descriptors, OpenFile, on_disk, in_memory, resized, IsNew, IsPosix}
use urvirt.Examples.Search.{first_below, first_below_lem, first_below_le}

abbrev seen : (ℕ → Option OpenFile) → ℕ → Option OpenFile
seen s d = if ltb d 1024 then s d else none

abbrev is_unused : (ℕ → Option OpenFile) → ℕ → Bool
is_unused s d = go (s d)
  where
    go : Option OpenFile → Bool
    go none = true
    go (some f) = false

abbrev id_of : Option OpenFile → ℕ
id_of (some (in_memory id length)) = id
id_of _ = 0

pub greatest : (n : ℕ) → (ℕ → ℕ) → ℕ
greatest zero f = 0
greatest (suc n) f = let rest = greatest n f in if ltb rest (f n) then f n else rest

le-greatest : (n : ℕ) (f : ℕ → ℕ) (k : ℕ) → k < n → f k ≤ greatest n f
unfolding greatest
le-greatest zero f k below = absurd (omega arith)
le-greatest (suc n) f k below = ground (arith, le-greatest n f k, last)
  where
    last : k ≡ n → f k ≡ f n
    last e = ap f e

abbrev put : (ℕ → Option OpenFile) → OpenFile → ℕ × (ℕ → Option OpenFile)
put s f = let fd = first_below 1024 (is_unused s) in (fd, λ d. if d == fd then some f else s d)

abbrev next_id : (ℕ → Option OpenFile) → ℕ
next_id s = suc (greatest 1024 (λ d. id_of (s d)))

abbrev size_of : ℕ → Option ℕ
size_of name =
    if name == 1
    then some 0x2800
    else if name == 2
    then some 0x4000
    else if name == 3
    then some 0x100000
    else none

abbrev pub posix : Descriptors
posix = record {
  State = ℕ → Option OpenFile;
  file = seen;
  size_at = λ name flags. size_of name;
  fresh = next_id;
  open_file = λ s name flags. elim (size_of name) [
    | none ↦ (2 ^ 64 - 1, s)
    | some size ↦ put s (on_disk name)
  ];
  memfd_create = λ s. put s (in_memory (next_id s) 0);
  ftruncate = λ s fd length. elim (seen s fd) [
    | some (in_memory id n) ↦ λ d. resized id length (s d)
    | _ ↦ s
  ];
  fstat = λ s fd. elim (seen s fd) [
    | some (on_disk name) ↦ size_of name
    | some (in_memory id n) ↦ some n
    | none ↦ none
  ];
  dup2 =
      λ s old new. elim (seen s old) [ some f ↦ λ d. if d == new then some f else s d | none ↦ s ];
  close = λ s fd d. if d == fd then none else s d;
}

is_unused-seen :
    (s : ℕ → Option OpenFile) (d : ℕ) → d < 1024 → seen s d ≡ none → is_unused s d ≡ true
is_unused-seen s d below e = ap (λ o. is_unused (λ _. o) 0) {x = s d} {y = none} (ground arith)

seen-is_unused : (s : ℕ → Option OpenFile) (d : ℕ) → is_unused s d ≡ true → seen s d ≡ none
seen-is_unused s d e = ground (arith, go (s d) e)
  where
    go : (o : Option OpenFile) → is_unused (λ _. o) 0 ≡ true → o ≡ none
    go none e = refl
    go (some f) e = cc

put-IsNew :
    (s : ℕ → Option OpenFile) (f : OpenFile) (n : ℕ)
    → n < 1024
    → seen s n ≡ none
    → IsNew posix s (put s f).1 n (put s f).0 f
put-IsNew s f n below e = record {
  least = first_below_le 1024 (is_unused s) n below free;
  unused = seen-is_unused s _ (first_below_lem 1024 (is_unused s) n below free);
  files = λ d. ground (arith, first_below_le 1024 (is_unused s) n below free);
}
  where
    free : is_unused s n ≡ true
    free = is_unused-seen s n below e

resized-seen :
    (s : ℕ → Option OpenFile) (id length d : ℕ)
    → seen (λ d. resized id length (s d)) d ≡ resized id length (seen s d)
resized-seen s id length d = elim (Bool-cases (ltb d 1024)) [
  | inl e ↦ rw e refl
  | inr e ↦ rw e refl
]

in_table :
    (s : ℕ → Option OpenFile) (d id length : ℕ)
    → seen s d ≡ some (in_memory id length)
    → (d < 1024) × (s d ≡ some (in_memory id length))
in_table s d id length e = elim (Bool-cases (ltb d 1024)) [
  | inl t ↦ (ground (arith, t), rw t at e)
  | inr t ↦ absurd (clash (rw t at e))
]
  where
    clash : none ≡ some (in_memory id length) → ⊥
    clash h = cc

id_lt :
    (s : ℕ → Option OpenFile) (d id length : ℕ)
    → d < 1024
    → s d ≡ some (in_memory id length)
    → id == next_id s ≡ false
id_lt s d id length below e =
    let at_least : id_of (s d) ≤ greatest 1024 (λ d. id_of (s d)) =
      le-greatest 1024 (λ d. id_of (s d)) d below in
    let same : id_of (s d) ≡ id = ap id_of e in ground (arith, at_least, same)

pub posix-IsPosix : IsPosix posix
posix-IsPosix = record {
  open_file_lem =
      λ s name flags size n e below free. rw (posix, e) (put-IsNew s (on_disk name) n below free);
  open_file-missing = λ s name flags e. rw (posix, e) (refl, λ d. refl);
  memfd_create_lem = λ s n below free. put-IsNew s (in_memory (next_id s) 0) n below free;
  fresh_lem = λ s d id length e.
      id_lt s d id length (in_table s d id length e).0 (in_table s d id length e).1;
  ftruncate_lem = λ s fd id n length d e. rw (posix, e) (resized-seen s id length d);
  fstat_lem = λ s fd name flags size e found. rw (posix, e) found;
  file-limit = λ s fd above. ground arith;
  fstat-none = λ s fd e. rw (posix, e) refl;
  dup2-none = λ s old new d e. rw (posix, e) refl;
  dup2_lem = λ s old new d f e below. rw (posix, e) (ground arith);
  close_lem = λ s fd d. ground arith;
}
