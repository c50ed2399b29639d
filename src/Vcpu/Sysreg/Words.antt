-- ===== src/Vcpu/Sysreg/Words.antt =====
-- Where the rows of the tables lie: no two share a place, and all are inside the writable page.
use open_hypervisor.Base.{
  ℕ, ◌+◌, ◌%◌, ◌≡◌, ◌≢◌, ◌≤◌, refl, sym, ap, ◌∙◌, Bool, true, false, not, ◌&&◌, ◌||◌, some, List,
  [], ◌∷◌, leb, ◌==◌, if◌then◌else◌, all_from, arith,
}
use open_hypervisor.Context.Laws.{Apart}
use open_hypervisor.Context.Rw
use open_hypervisor.Context.Controls
use open_hypervisor.Sysreg.{SysRegDesc}
use open_hypervisor.Sysreg.Lookup.{sysreg_lookup}
use open_hypervisor.Sysreg.Lookup.Laws.{all_rows, sysreg_lookup_lem, scan-encoding, scan-all}
use open_hypervisor.Caps.Registers.{ohv_id_slot, find_which}
use open_hypervisor.Vcpu.Sysreg.{
  Place, word, id_reg, no_id_reg, shadow, nowhere, place_of, cptr_el2, written,
}

-- A number for each place; rows that have none of their own get one by their encoding.
abbrev place_number : Place → ℕ → ℕ
place_number (word off) enc = off
place_number (shadow i) enc = 0x10000 + i
place_number (id_reg i) enc = 0x20000 + i
place_number no_id_reg enc = 0x30000 + enc
place_number nowhere enc = 0x50000 + enc

abbrev number : SysRegDesc → ℕ
number d = place_number (place_of d) d.encoding

-- The encoding of the first row at a place.
unfoldable owner : List SysRegDesc → ℕ → ℕ
unfolding place_of ohv_id_slot find_which
owner [] n = 0
owner (d ∷ ds) n = let rest = owner ds n in if number d == n then d.encoding else rest

abbrev word_fits : Place → Bool
word_fits (word off) =
    off % 8 == 0
    && (leb (off + 8) 0x4000
        && (not (off == Rw.state_dirty)
            && (not (off == Controls.vmkeyhi_el2) && not (off == Controls.vmkeylo_el2))))
word_fits _ = true

abbrev is_word : Place → Bool
is_word (word off) = true
is_word _ = false

abbrev row_fits : SysRegDesc → Bool
row_fits d =
    owner all_rows (number d) == d.encoding
    && (word_fits (place_of d) && (is_word (place_of d) || not (d.encoding == cptr_el2)))

rows_fit : all_from (λ _ (d : SysRegDesc). row_fits d) all_rows 0 ≡ true
unfolding owner place_of ohv_id_slot find_which
rows_fit = refl

row_fits_found :
    (enc : ℕ) (d : SysRegDesc)
    → sysreg_lookup enc ≡ some d
    → (d.encoding ≡ enc)
      × (owner all_rows (number d) ≡ enc)
      × (word_fits (place_of d) ≡ true)
      × ((is_word (place_of d) || not (enc == cptr_el2)) ≡ true)
row_fits_found enc d found =
    let scanned = sym (sysreg_lookup_lem enc) ∙ found in
    let fits = scan-all row_fits all_rows 0 enc d rows_fit scanned in
    ground (arith, fits, scan-encoding all_rows enc d scanned)

-- Whether an access to the place keeps what is written.
abbrev pub is_stored : Place → Bool
is_stored no_id_reg = false
is_stored nowhere = false
is_stored _ = true

number_stored :
    (p : Place) (enc enc' : ℕ) → is_stored p ≡ true → place_number p enc ≡ place_number p enc'
number_stored (word off) enc enc' stored = refl
number_stored (shadow i) enc enc' stored = refl
number_stored (id_reg i) enc enc' stored = refl
number_stored no_id_reg enc enc' stored = ground arith
number_stored nowhere enc enc' stored = ground arith

-- Two encodings that are found at the same place are one.
pub place_of-injective :
    (enc enc' : ℕ) (d d' : SysRegDesc) (p : Place)
    → sysreg_lookup enc ≡ some d
    → sysreg_lookup enc' ≡ some d'
    → place_of d ≡ p
    → place_of d' ≡ p
    → is_stored p ≡ true
    → enc ≡ enc'
place_of-injective enc enc' d d' p found found' at at' stored =
    let (_, own, _, _) = row_fits_found enc d found in
    let (_, own', _, _) = row_fits_found enc' d' found' in
    let same : number d ≡ number d' = ground (
      arith,
      ap (λ (q : Place). place_number q d.encoding) at,
      ap (λ (q : Place). place_number q d'.encoding) at',
      number_stored p d.encoding d'.encoding stored,
    ) in
    (sym own ∙ ap (owner all_rows) same) ∙ own'

pub word_fits_found :
    (enc off : ℕ) (d : SysRegDesc)
    → sysreg_lookup enc ≡ some d
    → place_of d ≡ word off
    → (off % 8 ≡ 0)
      × (off + 8 ≤ 0x4000)
      × (off ≢ Rw.state_dirty)
      × (off ≢ Controls.vmkeyhi_el2)
      × (off ≢ Controls.vmkeylo_el2)
word_fits_found enc off d found at =
    let (_, _, fits, _) = row_fits_found enc d found in
    let fits' : word_fits (word off) ≡ true = sym (ap word_fits at) ∙ fits in ground (arith, fits')

-- Two registers of different encodings that live in the pages of the context are apart there, inside
-- the writable page, and apart from the word that says which parts are dirty.
pub words-Apart :
    (enc enc' off off' : ℕ) (d d' : SysRegDesc)
    → sysreg_lookup enc ≡ some d
    → sysreg_lookup enc' ≡ some d'
    → place_of d ≡ word off
    → place_of d' ≡ word off'
    → enc ≢ enc'
    → Apart off off' × (off + 8 ≤ 0x4000) × Apart Rw.state_dirty off
words-Apart enc enc' off off' d d' found found' at at' ne =
    let fits = word_fits_found enc off d found at in
    let fits' = word_fits_found enc' off' d' found' at' in
    let differ : off ≢ off' = λ same. ne (
      place_of-injective enc enc' d d' (word off) found found' at (at' ∙ ap word (sym same))
        refl) in
    ground (arith, fits, fits', differ)

-- Only a word of the context takes another value than the caller's.
pub written_elsewhere :
    (enc v : ℕ) (d : SysRegDesc) (p : Place)
    → sysreg_lookup enc ≡ some d
    → place_of d ≡ p
    → is_word p ≡ false
    → written enc v ≡ v
written_elsewhere enc v d p found at elsewhere =
    let (_, _, _, other) = row_fits_found enc d found in
    let other' : (is_word p || not (enc == cptr_el2)) ≡ true =
      sym (ap (λ (q : Place). is_word q || not (enc == cptr_el2)) at) ∙ other in
    ground (arith, other')
