-- ===== src/Config/Lines.antt =====
-- What the loop of `ParseFile` makes of the lines of a file: of several lines for one name, the first.
use warhead_fix.Base.{
  ℕ, suc, ◌+◌, ◌^◌, ◌≤◌, ◌<◌, ◌≡◌, refl, sym, ap, subst, ◌∙◌, inl, inr, Option, none, some, List,
  [], ◌∷◌, arith, Bool-cases, Option-cases, length,
}
use warhead_fix.Base.Bytes.{same_bytes, same_bytes→eq}
use warhead_fix.Config.{ReadLine, read, failed, parse_line, add_entry, read_lines}
use warhead_fix.Config.Dictionary.{Options, lookup, emplace}

unfoldable pub with_entry : Option (List ℕ × List ℕ) → Options → Options
with_entry none es = es
with_entry (some e) es = e ∷ es

-- The names and values of all lines, in the order of the file; `none` if a line cannot be read.
unfoldable pub entries : List ReadLine → Option Options
unfolding with_entry
entries [] = some []
entries (failed ∷ lines) = none
entries (read line ∷ lines) = elim (entries lines) [
  | none ↦ none
  | some es ↦ some (with_entry (parse_line line) es)
]

unfoldable pub or_else : Option (List ℕ) → Option (List ℕ) → Option (List ℕ)
or_else none o = o
or_else (some v) o = some v

-- Every name is there once.
unfoldable pub Distinct : Options → Type 0
Distinct [] = Unit
Distinct (e ∷ options) = (lookup e.0 options ≡ none) × Distinct options

pub read_lines-none :
    (lines : List ReadLine) (file : Options × ℕ)
    → entries lines ≡ none
    → read_lines lines file ≡ none
unfolding entries read_lines
read_lines-none [] file e = absurd (ground (arith, e))
read_lines-none (failed ∷ lines) file e = refl
read_lines-none (read line ∷ lines) file e = elim (Option-cases (entries lines)) [
  | inl none_left ↦ read_lines-none lines (add_entry (parse_line line) file) none_left
  | inr found ↦ let (es, e') = found in let both = rw e' at e in absurd (ground (arith, both))
]

or_else-none : (o : Option (List ℕ)) → o ≡ or_else o none
unfolding or_else
or_else-none none = refl
or_else-none (some v) = refl

-- The options that were read so far, `fc`, and their number, after one more line.
record IsAdded (o : Option (List ℕ × List ℕ)) (fc : Options) (file : Options × ℕ) : Type 0 where
  counted : file.1 ≡ length file.0
  bounded : length file.0 ≤ suc (length fc)
  distinct : Distinct file.0
  looks :
      (key : List ℕ) → lookup key file.0 ≡ or_else (lookup key fc) (lookup key (with_entry o []))

new-looks :
    (entry : List ℕ × List ℕ) (fc : Options) (key : List ℕ)
    → lookup entry.0 fc ≡ none
    → lookup key (emplace entry.0 entry.1 fc) ≡ or_else (lookup key fc) (lookup key (entry ∷ []))
unfolding emplace lookup or_else
new-looks entry fc key fresh = elim (Bool-cases (same_bytes entry.0 key)) [
  | inl same ↦
      let absent : lookup key fc ≡ none =
        ap (λ k. lookup k fc) (sym (same_bytes→eq entry.0 key same)) ∙ fresh in
      rw (same, absent) refl
  | inr other ↦ rw other (or_else-none (lookup key fc))
]

old-looks :
    (entry : List ℕ × List ℕ) (fc : Options) (key value : List ℕ)
    → lookup entry.0 fc ≡ some value
    → lookup key fc ≡ or_else (lookup key fc) (lookup key (entry ∷ []))
unfolding lookup or_else
old-looks entry fc key value there = elim (Bool-cases (same_bytes entry.0 key)) [
  | inl same ↦
      let present : lookup key fc ≡ some value =
        ap (λ k. lookup k fc) (sym (same_bytes→eq entry.0 key same)) ∙ there in
      rw (same, present) refl
  | inr other ↦ rw other (or_else-none (lookup key fc))
]

add_entry-IsAdded :
    (o : Option (List ℕ × List ℕ)) (fc : Options)
    → Distinct fc
    → suc (length fc) < 2 ^ 32
    → IsAdded o fc (add_entry o (fc, length fc))
unfolding add_entry Distinct with_entry emplace lookup
add_entry-IsAdded none fc d small = record {
  counted = refl;
  bounded = omega arith;
  distinct = d;
  looks = λ key. or_else-none (lookup key fc);
}
add_entry-IsAdded (some entry) fc d small = elim (Option-cases (lookup entry.0 fc)) [
  | inl fresh ↦
      rw (add_entry, fresh)
        (record {
          counted = omega (arith, small);
          bounded = omega arith;
          distinct = (fresh, d);
          looks = λ key. new-looks entry fc key fresh;
        })
  | inr found ↦
      let (value, e) = found in
      rw (add_entry, e)
        (record {
          counted = refl;
          bounded = omega arith;
          distinct = d;
          looks = λ key. old-looks entry fc key value e;
        })
]

or_else_assoc : (a b c : Option (List ℕ)) → or_else (or_else a b) c ≡ or_else a (or_else b c)
unfolding or_else
or_else_assoc none b c = refl
or_else_assoc (some v) b c = refl

lookup-with_entry :
    (o : Option (List ℕ × List ℕ)) (es : Options) (key : List ℕ)
    → lookup key (with_entry o es) ≡ or_else (lookup key (with_entry o [])) (lookup key es)
unfolding with_entry lookup or_else
lookup-with_entry none es key = refl
lookup-with_entry (some entry) es key = elim (Bool-cases (same_bytes entry.0 key)) [
  | inl same ↦ rw same refl
  | inr other ↦ rw other refl
]

-- What the loop leaves: the options, their number, and for each name the first value.
pub record IsRead (es fc : Options) (o : Option (Options × ℕ)) : Type 0 where
  pub file_configs : Options
  pub result : o ≡ some (file_configs, length file_configs)
  pub distinct : Distinct file_configs
  pub looks : (key : List ℕ) → lookup key file_configs ≡ or_else (lookup key fc) (lookup key es)

pub read_lines-IsRead :
    (lines : List ReadLine) (es fc : Options)
    → entries lines ≡ some es
    → Distinct fc
    → length fc + length lines < 2 ^ 32
    → IsRead es fc (read_lines lines (fc, length fc))
unfolding entries read_lines lookup or_else
read_lines-IsRead [] es fc e d small = record {
  file_configs = fc;
  result = refl;
  distinct = d;
  looks =
      λ key. or_else-none (lookup key fc) ∙ ap (λ l. or_else (lookup key fc) (lookup key l)) empty;
}
  where
    empty : ◌≡◌ {A = Options} [] es
    empty = let both : some [] ≡ some es = e in cc
read_lines-IsRead (failed ∷ lines) es fc e d small = absurd (ground (arith, e))
read_lines-IsRead (read line ∷ lines) es fc e d small = elim (Option-cases (entries lines)) [
  | inl none_left ↦ let none_read = rw none_left at e in absurd (ground (arith, none_read))
  | inr found ↦
      let (es0, e0) = found in
      let o = parse_line line in
      let file = add_entry o (fc, length fc) in
      let added = add_entry-IsAdded o fc d (omega (arith, small)) in
      let ih =
        read_lines-IsRead lines es0 file.0 e0 added.distinct
          (omega (arith, small, added.bounded)) in
      let last =
        subst (λ n. IsRead es0 file.0 (read_lines lines (file.0, n))) (sym added.counted) ih in
      let all : some (with_entry o es0) ≡ some es = rw e0 at e in
      let same : with_entry o es0 ≡ es = cc in
      record {
        file_configs = last.file_configs;
        result = last.result;
        distinct = last.distinct;
        looks = λ key.
            last.looks key
            ∙ ap (λ a. or_else a (lookup key es0)) (added.looks key)
            ∙ or_else_assoc (lookup key fc) (lookup key (with_entry o [])) (lookup key es0)
            ∙ ap (or_else (lookup key fc))
                (sym (lookup-with_entry o es0 key) ∙ ap (lookup key) same);
      }
]
