-- ===== src/Fs/Path/Tokens.antt =====
-- A path that ends in a slash and a name: its tokens, and its split at the last slash.
use chisai_fs.Base.{
  ℕ, ◌≤◌, ◌≡◌, ◌≢◌, refl, ap, ◌∙◌, some, none, List, [], ◌∷◌, ◌++◌, arith, length, All,
}
use chisai_fs.Fs.Path.{segments, drop_empty, tokens, split_last}

-- A name has no slash.
abbrev pub IsName : List ℕ → Type 0
IsName = All (λ c. c ≢ b'/')

segments_name : (name : List ℕ) → IsName name → segments name ≡ (name, [])
unfolding segments
segments_name [] h = refl
segments_name (c ∷ cs) h = ground (arith, h.0, segments_name cs h.1)

segments-append :
    (parent name : List ℕ)
    → IsName name
    → segments (parent ++ (b'/' ∷ name)) ≡ ((segments parent).0, (segments parent).1 ++ (name ∷ []))
unfolding segments
segments-append [] name h = rw (segments_name name h)
segments-append (c ∷ cs) name h = ground (arith, segments-append cs name h)

drop_empty-append :
    (ts : List (List ℕ)) (name : List ℕ)
    → 1 ≤ length name
    → drop_empty (ts ++ (name ∷ [])) ≡ drop_empty ts ++ (name ∷ [])
unfolding drop_empty
drop_empty-append [] [] h = absurd (omega arith)
drop_empty-append [] (c ∷ cs) h = refl
drop_empty-append ([] ∷ ts) name h = drop_empty-append ts name h
drop_empty-append ((c ∷ cs) ∷ ts) name h = ap (λ t. (c ∷ cs) ∷ t) (drop_empty-append ts name h)

pub tokens-append :
    (parent name : List ℕ)
    → IsName name
    → 1 ≤ length name
    → tokens (parent ++ (b'/' ∷ name)) ≡ tokens parent ++ (name ∷ [])
unfolding tokens
tokens-append parent name h some_name =
    ap (λ s. drop_empty (s.0 ∷ s.1)) (segments-append parent name h)
    ∙ drop_empty-append ((segments parent).0 ∷ (segments parent).1) name some_name

split_last_name : (name : List ℕ) → IsName name → split_last name ≡ none
unfolding split_last
split_last_name [] h = refl
split_last_name (c ∷ cs) h = ground (arith, h.0, split_last_name cs h.1)

pub split_last-append :
    (parent name : List ℕ)
    → IsName name
    → split_last (parent ++ (b'/' ∷ name)) ≡ some (parent, name)
unfolding split_last
split_last-append [] name h = rw (split_last_name name h)
split_last-append (c ∷ cs) name h = rw (split_last-append cs name h)
