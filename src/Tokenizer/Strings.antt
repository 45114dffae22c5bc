-- ===== src/Tokenizer/Strings.antt =====
-- The words that the tokenizer of shell/src/sh_tokenizer.c leaves in memory, and where they begin.
use portable_c_shell.Prelude.{
  ℕ, suc, ◌+◌, List, [], ◌∷◌, ◌++◌, map, ◌≡◌, refl, sym, ap, ap₂, ◌∙◌, arith, append_assoc, length,
  length-append, drop, Bytes, NoNul, c_string, c_string-append, drop-length_append,
}
use portable_c_shell.Status.{Status}
use portable_c_shell.Tokenizer.{Tokenized, arguments}

-- The words in memory, each with its NUL, and where they begin.
abbrev pub flat : List Bytes → Bytes
flat [] = []
flat (w ∷ ws) = w ++ (0 ∷ flat ws)

abbrev pub starts : ℕ → List Bytes → List ℕ
starts n [] = []
starts n (w ∷ ws) = n ∷ starts (n + suc (length w)) ws

abbrev pub AllNoNul : List Bytes → Type 0
AllNoNul [] = Unit {0}
AllNoNul (w ∷ ws) = NoNul w × AllNoNul ws

pub AllNoNul-concat :
    (ws : List Bytes) (w : Bytes) → AllNoNul ws → NoNul w → AllNoNul (ws ++ (w ∷ []))
AllNoNul-concat [] w h k = (k, tt)
AllNoNul-concat (v ∷ ws) w h k = (h.0, AllNoNul-concat ws w h.1 k)

pub flat-concat : (ws : List Bytes) (w : Bytes) → flat (ws ++ (w ∷ [])) ≡ flat ws ++ (w ++ (0 ∷ []))
flat-concat [] w = refl
flat-concat (v ∷ ws) w =
    ap (λ k. v ++ (0 ∷ k)) (flat-concat ws w) ∙ sym (append_assoc v (0 ∷ flat ws) (w ++ (0 ∷ [])))

pub starts-concat :
    (ws : List Bytes) (w : Bytes) (n : ℕ)
    → starts n (ws ++ (w ∷ [])) ≡ starts n ws ++ ((n + length (flat ws)) ∷ [])
starts-concat [] w n = ap (λ k. k ∷ []) (omega arith)
starts-concat (v ∷ ws) w n =
    ap (λ k. n ∷ k)
      (starts-concat ws w (n + suc (length v))
        ∙ ap (λ k. starts (n + suc (length v)) ws ++ (k ∷ []))
            (omega (arith, length-append v (0 ∷ flat ws))))

pub length-starts : (ws : List Bytes) (n : ℕ) → length (starts n ws) ≡ length ws
length-starts [] n = refl
length-starts (w ∷ ws) n = ap suc (length-starts ws (n + suc (length w)))

-- The strings at the starts of the words are the words.
pub strings-starts :
    (ws : List Bytes) (pre post : Bytes)
    → AllNoNul ws
    → map (λ start. c_string (drop start (pre ++ (flat ws ++ post)))) (starts (length pre) ws) ≡ ws
strings-starts [] pre post h = refl
strings-starts (w ∷ ws) pre post h =
    ap₂ ◌∷◌
      (ap c_string (
          drop-length_append pre ((w ++ (0 ∷ flat ws)) ++ post) ∙ append_assoc w (0 ∷ flat ws) post)
        ∙ c_string-append w (flat ws ++ post) h.0)
      (ap₂ (λ b n. map (λ start. c_string (drop start b)) (starts n ws)) regroup
          (omega (arith, length-append pre (w ++ (0 ∷ [])), length-append w (0 ∷ [])))
        ∙ strings-starts ws (pre ++ (w ++ (0 ∷ []))) post h.1)
  where
    regroup : pre ++ ((w ++ (0 ∷ flat ws)) ++ post) ≡ (pre ++ (w ++ (0 ∷ []))) ++ (flat ws ++ post)
    regroup =
        ap (λ k. pre ++ k)
          (append_assoc w (0 ∷ flat ws) post ∙ sym (append_assoc w (0 ∷ []) (flat ws ++ post)))
        ∙ sym (append_assoc pre (w ++ (0 ∷ [])) (flat ws ++ post))

-- What is read off at the end: the status and the words.
abbrev pub outcome : Tokenized → Status × List Bytes
outcome t = (t.status, arguments t)
