-- ===== src/Base/Text.antt =====
-- Strings of Rust: the bytes of a `str`, and `trim`.
use Prim.Native.Char.{Char, code}
use Prim.Native.String.{String, [], ◌∷◌, ◌++◌ as ◌<>◌}
use Prim.Native.String.append
use vquasar.Base.{
  ℕ, List, ◌++◌, Bool, ltb, leb, ◌==◌, ◌&&◌, ◌||◌, if◌then◌else◌, ◌+◌, ◌/◌, ◌%◌, str_eq, false,
  true, ◌≡◌, ◌≢◌, Bool-cases, inl, eq_iff, inr, refl,
}

-- UTF-8.
abbrev char_bytes : ℕ → List ℕ
char_bytes c =
    if ltb c 0x80
    then List.◌∷◌ c List.[]
    else if ltb c 0x800
    then List.◌∷◌ (0xC0 + c / 64) (List.◌∷◌ (0x80 + c % 64) List.[])
    else if ltb c 0x10000
    then List.◌∷◌ (0xE0 + c / 4096)
        (List.◌∷◌ (0x80 + c / 64 % 64) (List.◌∷◌ (0x80 + c % 64) List.[]))
    else List.◌∷◌ (0xF0 + c / 262144) (
        List.◌∷◌ (0x80 + c / 4096 % 64)
          (List.◌∷◌ (0x80 + c / 64 % 64) (List.◌∷◌ (0x80 + c % 64) List.[])))

unfoldable pub as_bytes : String → List ℕ
as_bytes [] = List.[]
as_bytes (c ∷ s) = char_bytes (code c) ++ as_bytes s

abbrev in_range : ℕ → ℕ → ℕ → Bool
in_range lo hi c = leb lo c && leb c hi

-- `char::is_whitespace`.
abbrev pub is_whitespace : ℕ → Bool
is_whitespace c =
    in_range 9 13 c
    || (c == 32)
    || (c == 0x85)
    || (c == 0xA0)
    || (c == 0x1680)
    || in_range 0x2000 0x200A c
    || (c == 0x2028)
    || (c == 0x2029)
    || (c == 0x202F)
    || (c == 0x205F)
    || (c == 0x3000)

abbrev trim_start : String → String
trim_start [] = []
trim_start (c ∷ s) = let rest = trim_start s in if is_whitespace (code c) then rest else c ∷ s

abbrev trim_end : String → String
trim_end [] = []
trim_end (c ∷ s) =
    let rest = trim_end s in if str_eq rest "" && is_whitespace (code c) then [] else c ∷ rest

unfoldable pub trim : String → String
trim s = trim_end (trim_start s)

-- `str::contains` of one character.
unfoldable pub contains_char : ℕ → String → Bool
contains_char c [] = false
contains_char c (d ∷ s) = (code d == c) || contains_char c s

-- `u8::to_ascii_lowercase`.
abbrev to_ascii_lowercase : ℕ → ℕ
to_ascii_lowercase c = if in_range 65 90 c then c + 32 else c

unfoldable pub eq_ignore_ascii_case : String → String → Bool
eq_ignore_ascii_case [] [] = true
eq_ignore_ascii_case [] (d ∷ t) = false
eq_ignore_ascii_case (c ∷ s) [] = false
eq_ignore_ascii_case (c ∷ s) (d ∷ t) =
    (to_ascii_lowercase (code c) == to_ascii_lowercase (code d)) && eq_ignore_ascii_case s t

abbrev pub is_blank : String → Bool
is_blank [] = true
is_blank (c ∷ s) = is_whitespace (code c) && is_blank s

pub not_same : (a b : String) → a ≢ b → str_eq a b ≡ false
not_same a b differ = elim (Bool-cases (str_eq a b)) [
  | inl same ↦ absurd (differ ((eq_iff a b).0 same))
  | inr other ↦ other
]

after_white : (w b : Bool) → (w && b) ≡ false → w ≡ true → b ≡ false
after_white true b h e = h
after_white false b h e = cc

not_empty :
    (b w : Bool) (c : Char) (s : String)
    → (w ≡ true → b ≡ false)
    → str_eq (if b && w then [] else c ∷ s) "" ≡ false
not_empty true true c s h = absurd (absent (h refl))
  where
    absent : true ≡ false → ⊥
    absent e = cc
not_empty true false c s h = not_same (c ∷ s) "" λ e. cc
not_empty false w c s h = not_same (c ∷ s) "" λ e. cc

trim_end-is_blank : (s : String) → is_blank s ≡ false → str_eq (trim_end s) "" ≡ false
trim_end-is_blank [] h = absurd (cc)
trim_end-is_blank (c ∷ s) h =
    not_empty (str_eq (trim_end s) "") (is_whitespace (code c)) c (trim_end s)
      λ w. trim_end-is_blank s (after_white (is_whitespace (code c)) (is_blank s) h w)

trim_start-is_blank : (s : String) → is_blank s ≡ false → is_blank (trim_start s) ≡ false
trim_start-is_blank [] h = h
trim_start-is_blank (c ∷ s) h = elim (Bool-cases (is_whitespace (code c))) [
  | inl w ↦ rw w (trim_start-is_blank s (after_white (is_whitespace (code c)) (is_blank s) h w))
  | inr visible ↦ rw visible h
]

-- A string with a visible character is not empty once it is trimmed.
pub trim-is_blank : (s : String) → is_blank s ≡ false → str_eq (trim s) "" ≡ false
unfolding trim
trim-is_blank s h = trim_end-is_blank (trim_start s) (trim_start-is_blank s h)

pub is_blank-append : (s t : String) → is_blank t ≡ false → is_blank (s <> t) ≡ false
is_blank-append [] t h = rw (append.nil t) h
is_blank-append (c ∷ s) t h =
    rw (append.cons c s t)
      (and_later (is_whitespace (code c)) (is_blank (s <> t)) (is_blank-append s t h))
  where
    and_later : (w b : Bool) → b ≡ false → (w && b) ≡ false
    and_later true b e = e
    and_later false b e = refl

pub apart : (a b : String) → str_eq a b ≡ false → a ≢ b
apart a b differ same = both ((eq_iff a b).1 same) differ
  where
    both : {c : Bool} → c ≡ true → c ≡ false → ⊥
    both x y = cc
