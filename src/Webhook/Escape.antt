-- ===== src/Webhook/Escape.antt =====
-- pkg/webhook/mutator.go: `jsonPatchEscape`, against the decoding that RFC 6901 prescribes.
use composite_dra_driver.Prelude.{
  ℕ, ◌==◌, ◌≡◌, ◌≢◌, refl, ap, arith, Bool, true, false, [], ◌∷◌, ◌++◌, GoString, if◌then◌else◌,
  Bool-cases, inl, inr, All,
}

-- the cases of the switch on one byte
escape_byte : ℕ → GoString
escape_byte c =
    if c == b'~' then b'~' ∷ b'0' ∷ [] else if c == b'/' then b'~' ∷ b'1' ∷ [] else c ∷ []

unfoldable pub json_patch_escape : GoString → GoString
unfolding escape_byte
json_patch_escape [] = []
json_patch_escape (c ∷ s) = escape_byte c ++ json_patch_escape s

-- RFC 6901, section 4: `~1` stands for a slash and `~0` for a tilde.
-- The flag says that a tilde was read.
unfoldable pub unescape : Bool → GoString → GoString
unescape false [] = []
unescape false (c ∷ s) = elim (c == b'~') [ true ↦ unescape true s | false ↦ c ∷ unescape false s ]
unescape true [] = b'~' ∷ []
unescape true (d ∷ s) = (if d == b'1' then b'/' else b'~') ∷ unescape false s

-- A key that is escaped has no slash, so it is one step of a path, and decoding it as RFC 6901
-- prescribes gives the key.
pub json_patch_escape_lem :
    (s : GoString)
    → (unescape false (json_patch_escape s) ≡ s) × All (λ c. c ≢ b'/') (json_patch_escape s)
unfolding json_patch_escape unescape escape_byte
json_patch_escape_lem [] = (refl, tt)
json_patch_escape_lem (c ∷ s) =
    let (same, free) = json_patch_escape_lem s in
    elim (Bool-cases (c == b'~')) [
      | inl tilde ↦
          let e : c ≡ b'~' = ground arith in
          rw tilde (rw (← e) (ap (◌∷◌ c) same), (omega arith, (omega arith, free)))
      | inr other ↦ elim (Bool-cases (c == b'/')) [
        | inl slash ↦
            let e : c ≡ b'/' = ground arith in
            rw (other, slash) (rw (← e) (ap (◌∷◌ c) same), (omega arith, (omega arith, free)))
        | inr plain ↦
            rw (other, plain) (rw (other, unescape) (ap (◌∷◌ c) same), (ground arith, free))
      ]
    ]
