-- ===== src/Ip/Tests.antt =====
-- Addresses of four bytes, and dotted strings.
use nekrnl.Prelude.{ℕ, ◌≡◌, refl, true, false, List, [], ◌∷◌, some}
use nekrnl.Ip.{
  equals, differs, equals4, differs4, equal_from, differ_from, check_version4, check_from,
}
use nekrnl.Ascii.{is_alnum}

abbrev here : List ℕ
here = 10 ∷ 0 ∷ 0 ∷ 1 ∷ []

abbrev there : List ℕ
there = 10 ∷ 0 ∷ 0 ∷ 2 ∷ []

-- Two addresses that are not equal and do not differ.
neither : (equals4 here there ≡ false) × (differs4 here there ≡ false)
unfolding equals differs equal_from differ_from
neither = (refl, refl)

-- "10.0.0.1"
abbrev text : List ℕ
text = b'1' ∷ b'0' ∷ b'.' ∷ b'0' ∷ b'.' ∷ b'0' ∷ b'.' ∷ b'1' ∷ []

text_accepted : check_version4 (some text) ≡ true
unfolding check_version4 check_from is_alnum
text_accepted = refl
