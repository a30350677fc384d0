-- ===== src/Webhook/JsonPatch/Paths.antt =====
-- Where the paths of the webhook's operations lead.
use composite_dra_driver.Prelude.{
  ℕ, zero, suc, ◌<◌, ◌≡◌, ◌≢◌, refl, ap, ◌∙◌, arith, true, false, [], ◌∷◌, ◌++◌, map, some,
  GoString, codes, decimal, decimal_inj, decimal-AllDigits, str_eq, str_eq_refl, str_eq_iff,
  split_slash, split-append, split-element, All, All-mono, Bool-cases, inl, inr, ◌==◌,
}
use composite_dra_driver.Webhook.Escape.{unescape, json_patch_escape, json_patch_escape_lem}
use composite_dra_driver.Webhook.Patches.{container_path}
use composite_dra_driver.Webhook.JsonPatch.{
  request, limit, container_claims, container_claims_end, tokens, locate, index_in,
}

-- a text without a tilde stands for itself
unescape-plain : (s : GoString) → All (λ c. c ≢ b'~') s → unescape false s ≡ s
unfolding unescape
unescape-plain [] h = refl
unescape-plain (c ∷ s) (ne, h) =
    let plain : (c == b'~') ≡ false = ground arith in
    rw (plain, unescape) (ap (◌∷◌ c) (unescape-plain s h))

pub decimal-no_slash : (n : ℕ) → All (λ c. c ≢ b'/') (decimal n)
decimal-no_slash n = All-mono (decimal n) (λ c d e. ground arith) (decimal-AllDigits n)

unescape-decimal : (n : ℕ) → unescape false (decimal n) ≡ decimal n
unescape-decimal n =
    unescape-plain (decimal n) (All-mono (decimal n) (λ c d e. ground arith) (decimal-AllDigits n))

tokens-container :
    (i : ℕ) (rest : GoString)
    → tokens (container_path i rest)
      ≡ []
        ∷ codes "spec"
        ∷ codes "containers"
        ∷ decimal i
        ∷ codes "resources"
        ∷ map (unescape false) (split_slash rest)
unfolding tokens container_path codes split_slash unescape
tokens-container i rest =
    rw
      (
        split-append (decimal i) (codes "resources/" ++ rest),
        split-element (decimal i) (decimal-no_slash i),
        unescape-decimal i,
      )
      refl

pub index_in-decimal : (i n : ℕ) → i < n → index_in (decimal i) n ≡ some i
unfolding index_in
index_in-decimal i zero h = absurd (omega arith)
index_in-decimal i (suc n) h = elim (Bool-cases (str_eq (decimal n) (decimal i))) [
  | inl e ↦
      let same : n ≡ i = decimal_inj n i ((str_eq_iff (decimal n) (decimal i)).0 e) in
      rw e (ap some same)
  | inr e ↦
      let ne : n ≢ i = λ q.
        (let same : str_eq (decimal n) (decimal i) ≡ true = rw q (str_eq_refl (decimal i)) in cc) in
      rw e (index_in-decimal i n (omega arith))
]

-- the token of an escaped key
tokens-key : (k : GoString) → map (unescape false) (split_slash (json_patch_escape k)) ≡ k ∷ []
tokens-key k =
    let (same, free) = json_patch_escape_lem k in
    ap (map (unescape false)) (split-element (json_patch_escape k) free) ∙ ap (λ t. t ∷ []) same

pub locate-request :
    (i : ℕ) (k : GoString)
    → locate (tokens (container_path i (codes "requests/" ++ json_patch_escape k)))
      ≡ request (decimal i) k
unfolding locate codes split_slash unescape str_eq
locate-request i k =
    ap locate (tokens-container i (codes "requests/" ++ json_patch_escape k))
    ∙ rw (tokens-key k) refl

pub locate-limit :
    (i : ℕ) (k : GoString)
    → locate (tokens (container_path i (codes "limits/" ++ json_patch_escape k)))
      ≡ limit (decimal i) k
unfolding locate codes split_slash unescape str_eq
locate-limit i k =
    ap locate (tokens-container i (codes "limits/" ++ json_patch_escape k)) ∙ rw (tokens-key k) refl

pub locate-claims :
    (i : ℕ) → locate (tokens (container_path i (codes "claims"))) ≡ container_claims (decimal i)
unfolding locate codes split_slash unescape str_eq
locate-claims i = ap locate (tokens-container i (codes "claims"))

pub locate-claims_end :
    (i : ℕ)
    → locate (tokens (container_path i (codes "claims/-"))) ≡ container_claims_end (decimal i)
unfolding locate codes split_slash unescape str_eq
locate-claims_end i = ap locate (tokens-container i (codes "claims/-"))
