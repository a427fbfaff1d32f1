-- ===== src/Ctype/Classes.antt =====
-- How the classes of characters divide the character set.
use scales_os.Prelude.{ℕ, ◌<◌, ◌≡◌, true, false, not, ◌&&◌, ◌||◌, arith, ◌==◌}
use scales_os.Ctype.{
  isalpha, isalnum, iscntrl, isdigit, isgraph, islower, isupper, isprint, ispunct, toupper, tolower,
}

-- Every character below 128 is a control character or printable, never both; a printable one is the
-- space, punctuation, or a letter or digit, and only one of these; a letter is upper or lower case.
pub classes :
    (c : ℕ)
    → c < 128
    → (isprint c ≡ not (iscntrl c))
      × (isprint c ≡ (c == 0x20 || ispunct c || isalnum c))
      × ((ispunct c && isalnum c) ≡ false)
      × ((isgraph c) ≡ (ispunct c || isalnum c))
      × (isalpha c ≡ (isupper c || islower c))
      × ((isupper c && islower c) ≡ false)
unfolding isalpha isalnum iscntrl isdigit isgraph islower isupper isprint ispunct
classes c h = (ground arith, ground arith, ground arith, ground arith, ground arith, ground arith)

-- Changing the case of a letter and back gives the letter, changes nothing but letters, and stays
-- in the letters.
pub tolower-toupper :
    (c : ℕ)
    → ((islower c ≡ true) → (tolower (toupper c) ≡ c) × (isupper (toupper c) ≡ true))
      × ((isupper c ≡ true) → (toupper (tolower c) ≡ c) × (islower (tolower c) ≡ true))
      × ((isalpha c ≡ false) → (toupper c ≡ c) × (tolower c ≡ c))
unfolding isalpha islower isupper toupper tolower
tolower-toupper c = (λ h. ground arith, λ h. ground arith, λ h. ground arith)
