-- ===== src/Zmodem/Reader/Escapes.antt =====
-- `PutEscaped` and `Reader::Unescaped` together.
use quick_logger.Prelude.{
  ℕ, ◌≡◌, ◌∙◌, refl, ap, inl, inr, Bool, true, false, not, ◌&&◌, ◌||◌, [], ◌∷◌, ◌++◌, arith, ◌==◌,
  all_below, all_below_sound, Bool-cases, bit_and, bit_xor, Bytes, length, All,
}
use quick_logger.Zmodem.Frame.{
  zdle, zcrce, zcrcg, zcrcq, zcrcw, must_escape, escaped_byte, put_escaped, put_all,
}
use quick_logger.Zmodem.Frame.Position.{IsByte}
use quick_logger.Zmodem.Reader.{
  byte, Script, arriving, plain, inner, is_flow, scan, unescaped, M, got, and_then-got, read_all,
  body_byte, check_byte, body_byte_of, check_byte_of,
}

-- Is the byte an escape of `b` that the reader undoes?
abbrev undone : ℕ → ℕ → Bool
undone b e =
    not
      (e == zdle || e == zcrce || e == zcrcg || e == zcrcq || e == zcrcw || e == b'l' || e == b'm')
    && bit_and e 0x60 == 0x40
    && bit_xor e 0x40 == b

-- Every byte whose escape can be wanted has one that the reader undoes.
abbrev escapes_well : ℕ → Bool
escapes_well b = not (must_escape true b'@' b) || undone b (bit_xor b 0x40)

-- The bytes that are never sent bare, whatever the flags.
abbrev bare_well : ℕ → Bool
bare_well b = must_escape false 0 b || not (is_flow b || b == zdle)

escape_table : all_below 256 escapes_well ≡ true
unfolding all_below must_escape
escape_table = refl

bare_table : all_below 256 bare_well ≡ true
unfolding all_below must_escape
bare_table = refl

must_escape_mono :
    (ctl : Bool) (previous b : ℕ)
    → must_escape ctl previous b ≡ true
    → must_escape true b'@' b ≡ true
unfolding must_escape
must_escape_mono ctl previous b h = ground arith

must_escape_least :
    (ctl : Bool) (previous b : ℕ)
    → must_escape ctl previous b ≡ false
    → must_escape false 0 b ≡ false
unfolding must_escape
must_escape_least ctl previous b h = ground arith

inner-undone :
    (b e : ℕ) (rest : Script) → undone b e ≡ true → scan (inner 1) (byte e ∷ rest) ≡ (plain b, rest)
unfolding scan
inner-undone b e rest h = ground arith

unescaped_escape :
    (b e : ℕ) (rest : Script)
    → undone b e ≡ true
    → unescaped (byte zdle ∷ byte e ∷ rest) ≡ (plain b, rest)
unfolding scan
unescaped_escape b e rest h = inner-undone b e rest h

unescaped_bare :
    (b : ℕ) (rest : Script)
    → (is_flow b || b == zdle) ≡ false
    → unescaped (byte b ∷ rest) ≡ (plain b, rest)
unfolding scan
unescaped_bare b rest h = ground arith

-- A byte written by PutEscaped, with control characters escaped or not and whatever byte was
-- written before, is read back by Unescaped as that byte, and nothing more of the channel is read.
pub unescaped-put_escaped :
    (ctl : Bool) (previous b : ℕ) (rest : Script)
    → IsByte b
    → unescaped (arriving (put_escaped ctl previous b) ++ rest) ≡ (plain b, rest)
unfolding put_escaped
unescaped-put_escaped ctl previous b rest h = elim (Bool-cases (must_escape ctl previous b)) [
  | inl yes_ ↦
      rw (yes_, escaped_byte)
        (unescaped_escape b (bit_xor b 0x40) rest (
          ground (
            arith,
            must_escape_mono ctl previous b yes_,
            all_below_sound 256 escapes_well b escape_table h,
          )))
  | inr no_ ↦
      rw (no_, escaped_byte)
        (unescaped_bare b rest (
          ground (
            arith,
            must_escape_least ctl previous b no_,
            all_below_sound 256 bare_well b bare_table h,
          )))
]

pub arriving-append :
    (xs ys : Bytes) (rest : Script)
    → arriving (xs ++ ys) ++ rest ≡ arriving xs ++ (arriving ys ++ rest)
arriving-append [] ys rest = refl
arriving-append (x ∷ xs) ys rest = ap (◌∷◌ (byte x)) (arriving-append xs ys rest)

-- So a run of bytes is read back, by a reader of header bodies and by one of checksums.
pub read_all-put_all :
    (m : M ℕ)
    → ((b : ℕ) (s t : Script) → unescaped s ≡ (plain b, t) → m s ≡ (got b, t))
    → (ctl : Bool) (previous : ℕ) (bs : Bytes) (rest : Script) → All IsByte bs
    → read_all (length bs) m (arriving (put_all ctl previous bs) ++ rest) ≡ (got bs, rest)
unfolding read_all put_all
read_all-put_all m reads ctl previous [] rest h = refl
read_all-put_all m reads ctl previous (b ∷ bs) rest h =
    rw (arriving-append (put_escaped ctl previous b) later rest) (
      and_then-got _ _
        (reads b _ _ (unescaped-put_escaped ctl previous b (arriving later ++ rest) h.0))
      ∙ and_then-got _ _
          (read_all-put_all m reads ctl (escaped_byte (must_escape ctl previous b) b) bs rest h.1))
  where
    later : Bytes
    later = put_all ctl (escaped_byte (must_escape ctl previous b) b) bs

pub body_byte-plain : (b : ℕ) (s t : Script) → unescaped s ≡ (plain b, t) → body_byte s ≡ (got b, t)
unfolding body_byte
body_byte-plain b s t h = rw (h, body_byte_of)

pub check_byte-plain :
    (b : ℕ) (s t : Script) → unescaped s ≡ (plain b, t) → check_byte s ≡ (got b, t)
unfolding check_byte
check_byte-plain b s t h = rw (h, check_byte_of)
