-- ===== src/Ramdisk/Path/Tokens.antt =====
-- The tokens of a path, as `strsep` gives them to `my_find_inode_number` in kernelspace/discos.c.
use file_system_toy_os.Prelude.{
  ==→eq, sym, ℕ, ◌≡◌, ◌≢◌, refl, ap, List, [], ◌∷◌, ◌++◌, arith, ◌==◌, ne→==, Bool-cases, inl, inr,
}
use file_system_toy_os.Ramdisk.Memory.{CString}
use file_system_toy_os.Ramdisk.Path.{slash, tokens, cons_head}
use file_system_toy_os.Ramdisk.Path.Split.{NoSlash}

-- The tokens with '/' between them.
unfoldable pub join : List CString → CString
join [] = []
join (t ∷ []) = t
join (t ∷ u ∷ us) = t ++ slash ∷ join (u ∷ us)

join-cons_head : (c : ℕ) (ts : List CString) → join (cons_head c ts) ≡ c ∷ join ts
unfolding join
join-cons_head c [] = refl
join-cons_head c (t ∷ []) = refl
join-cons_head c (t ∷ u ∷ us) = refl

join-nil_cons : (ts : List CString) → ts ≢ [] → join ([] ∷ ts) ≡ slash ∷ join ts
unfolding join
join-nil_cons [] ne = absurd (ne refl)
join-nil_cons (t ∷ ts) ne = refl

tokens-ne-nil : (s : CString) → tokens s ≢ []
unfolding tokens
tokens-ne-nil [] e = cc
tokens-ne-nil (c ∷ s) e = ground arith

cons_head-append :
    (c : ℕ) (ts us : List CString) → ts ≢ [] → cons_head c (ts ++ us) ≡ cons_head c ts ++ us
cons_head-append c [] us ne = absurd (ne refl)
cons_head-append c (t ∷ ts) us ne = refl

-- The tokens that strsep gives for a path, joined with a '/' between each two, are the path
-- again.
pub join-tokens : (s : CString) → join (tokens s) ≡ s
unfolding tokens join
join-tokens [] = refl
join-tokens (c ∷ s) = elim (Bool-cases (c == slash)) [
  | inl e ↦
      rw (e, tokens)
        (rw (join-nil_cons (tokens s) (tokens-ne-nil s), join-tokens s)
          (ap (λ x. x ∷ s) (sym (==→eq c slash e))))
  | inr e ↦ rw (e, tokens) (rw (join-cons_head c (tokens s), join-tokens s))
]

pub tokens-append : (s t : CString) → NoSlash s → tokens (s ++ slash ∷ t) ≡ s ∷ tokens t
unfolding tokens
tokens-append [] t p = refl
tokens-append (c ∷ s) t p = rw (ne→== _ _ p.0, tokens) (rw (tokens-append s t p.1))

pub tokens-plain : (s : CString) → NoSlash s → tokens s ≡ s ∷ []
unfolding tokens
tokens-plain [] p = refl
tokens-plain (c ∷ s) p = rw (ne→== _ _ p.0, tokens) (rw (tokens-plain s p.1))

-- The tokens that strsep gives for a path followed by '/' and a name without '/' are the tokens
-- of the path and then the name.
pub tokens-snoc :
    (s name : CString) → NoSlash name → tokens (s ++ slash ∷ name) ≡ tokens s ++ (name ∷ [])
unfolding tokens
tokens-snoc [] name p = rw (tokens-plain name p)
tokens-snoc (c ∷ s) name p = elim (Bool-cases (c == slash)) [
  | inl e ↦ rw (e, tokens) (rw (tokens-snoc s name p))
  | inr e ↦
      rw (e, tokens)
        (rw (tokens-snoc s name p) (cons_head-append c (tokens s) (name ∷ []) (tokens-ne-nil s)))
]
