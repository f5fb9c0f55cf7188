-- ===== src/Squashfs/Lru/Links.antt =====
-- The circular list of the cache: what its two directions of links say, and what unlinking a block
-- and linking one in make of them.
use go_diskfs.Base.{ℕ, ◌≡◌, ◌≢◌, sym, ◌∙◌, Option, none, some, List, [], ◌∷◌, ◌++◌, arith}
use go_diskfs.Base.Distinct.{Fresh, Distinct, Fresh-left, Fresh-right}
use go_diskfs.Squashfs.Lru.{update}

-- The last of p ∷ bs, and the first of bs with q behind them.
abbrev pub end_of : ℕ → List ℕ → ℕ
end_of p [] = p
end_of p (a ∷ bs) = end_of a bs

abbrev pub first_or : List ℕ → ℕ → ℕ
first_or [] q = q
first_or (a ∷ bs) q = a

-- The blocks from p over `bs` to q, by their `next`, and from q back to p, by their `prev`.
abbrev pub Next : (ℕ → Option ℕ) → ℕ → List ℕ → ℕ → Type 0
Next n p [] q = n p ≡ some q
Next n p (a ∷ bs) q = (n p ≡ some a) × Next n a bs q

abbrev pub Prev : (ℕ → Option ℕ) → ℕ → List ℕ → ℕ → Type 0
Prev v p [] q = v q ≡ some p
Prev v p (a ∷ bs) q = (v a ≡ some p) × Prev v a bs q

module _ {ℓ} {A : Type ℓ} (f : ℕ → A) (k : ℕ) (w : A) where
  pub update_self : update f k w k ≡ w
  update_self = ground arith

  pub update_ne : (b : ℕ) → b ≢ k → update f k w b ≡ f b
  update_ne b h = ground arith

end_of-ne : (k x : ℕ) (xs : List ℕ) → x ≢ k → Fresh k xs → end_of x xs ≢ k
end_of-ne k x [] h f = h
end_of-ne k x (y ∷ ys) h (g, f) = end_of-ne k y ys g f

first_or-ne : (k q : ℕ) (xs : List ℕ) → q ≢ k → Fresh k xs → first_or xs q ≢ k
first_or-ne k q [] h f = h
first_or-ne k q (y ∷ ys) h (g, f) = g

pub Next-first :
    (n : ℕ → Option ℕ) (p : ℕ) (bs : List ℕ) (q : ℕ) → Next n p bs q → n p ≡ some (first_or bs q)
Next-first n p [] q h = h
Next-first n p (a ∷ bs) q h = h.0

pub Prev-end :
    (v : ℕ → Option ℕ) (p : ℕ) (bs : List ℕ) (q : ℕ) → Prev v p bs q → v q ≡ some (end_of p bs)
Prev-end v p [] q h = h
Prev-end v p (a ∷ bs) q h = Prev-end v a bs q h.1

-- A block outside the list may change.
pub Next-frame :
    (n : ℕ → Option ℕ) (k : ℕ) (w : Option ℕ) (p : ℕ) (bs : List ℕ) (q : ℕ)
    → p ≢ k
    → Fresh k bs
    → Next n p bs q
    → Next (update n k w) p bs q
Next-frame n k w p [] q ne f h = update_ne n k w p ne ∙ h
Next-frame n k w p (a ∷ bs) q ne (g, f) (h, t) =
    (update_ne n k w p ne ∙ h, Next-frame n k w a bs q g f t)

pub Prev-frame :
    (v : ℕ → Option ℕ) (k : ℕ) (w : Option ℕ) (p : ℕ) (bs : List ℕ) (q : ℕ)
    → q ≢ k
    → Fresh k bs
    → Prev v p bs q
    → Prev (update v k w) p bs q
Prev-frame v k w p [] q ne f h = update_ne v k w q ne ∙ h
Prev-frame v k w p (a ∷ bs) q ne (g, f) (h, t) =
    (update_ne v k w a g ∙ h, Prev-frame v k w a bs q ne f t)

ne_sym : {a b : ℕ} → a ≢ b → b ≢ a
ne_sym h e = h (sym e)

-- p is followed by what followed a.
Next-skip :
    (n : ℕ → Option ℕ) (p a : ℕ) (ys : List ℕ) (q : ℕ)
    → p ≢ a
    → Fresh p ys
    → Fresh a ys
    → Next n a ys q
    → Next (update (update n p (some (first_or ys q))) a none) p ys q
Next-skip n p a [] q ne f g h =
    update_ne (update n p (some q)) a none p ne ∙ update_self n p (some q)
Next-skip n p a (y ∷ ys) q ne (f, fs) (g, gs) (h, t) = (
  update_ne (update n p (some y)) a none p ne ∙ update_self n p (some y),
  Next-frame (update n p (some y)) a none y ys q g gs (Next-frame n p (some y) y ys q f fs t),
)

pub Next-unlink :
    (n : ℕ → Option ℕ) (p : ℕ) (xs : List ℕ) (a : ℕ) (ys : List ℕ) (q : ℕ)
    → Distinct (p ∷ (xs ++ (a ∷ ys)))
    → Next n p (xs ++ (a ∷ ys)) q
    → (n a ≡ some (first_or ys q))
      × Next (update (update n (end_of p xs) (some (first_or ys q))) a none) p (xs ++ ys) q
Next-unlink n p [] a ys q ((f, fs), (g, d)) (h, t) =
    (Next-first n a ys q t, Next-skip n p a ys q (ne_sym f) fs g t)
Next-unlink n p (x ∷ xs) a ys q ((f, fs), d) (h, t) =
    let (e, k) = Next-unlink n x xs a ys q d t in
    let last : end_of x xs ≢ p = end_of-ne p x xs f (Fresh-left p xs (a ∷ ys) fs) in
    let apart : a ≢ p = (Fresh-right p xs (a ∷ ys) fs).0 in
    (
      e,
      (
        update_ne (update n (end_of x xs) (some (first_or ys q))) a none p (ne_sym apart)
            ∙ update_ne n (end_of x xs) (some (first_or ys q)) p (ne_sym last)
            ∙ h,
        k,
      ),
    )

pub Prev-unlink :
    (v : ℕ → Option ℕ) (p : ℕ) (xs : List ℕ) (a : ℕ) (ys : List ℕ) (q : ℕ)
    → Distinct (xs ++ (a ∷ ys))
    → Fresh q (xs ++ (a ∷ ys))
    → Prev v p (xs ++ (a ∷ ys)) q
    → (v a ≡ some (end_of p xs))
      × Prev (update (update v (first_or ys q) (some (end_of p xs))) a none) p (xs ++ ys) q
Prev-unlink v p [] a [] q (f, d) (g, gs) (h, t) =
    (h, update_ne (update v q (some p)) a none q (ne_sym g) ∙ update_self v q (some p))
Prev-unlink v p [] a (y ∷ ys) q ((f, fs), (e, d)) (g, (k, ks)) (h, (t, ts)) = (
  h,
  (
    update_ne (update v y (some p)) a none y f ∙ update_self v y (some p),
    Prev-frame (update v y (some p)) a none y ys q (ne_sym g) fs
        (Prev-frame v y (some p) y ys q (ne_sym k) e ts),
  ),
)
Prev-unlink v p (x ∷ xs) a ys q (f, d) (g, gs) (h, t) =
    let (e, k) = Prev-unlink v x xs a ys q d gs t in
    let apart : a ≢ x = (Fresh-right x xs (a ∷ ys) f).0 in
    let first : first_or ys q ≢ x = first_or-ne x q ys (ne_sym g) (Fresh-right x xs (a ∷ ys) f).1 in
    (
      e,
      (
        update_ne (update v (first_or ys q) (some (end_of x xs))) a none x (ne_sym apart)
            ∙ update_ne v (first_or ys q) (some (end_of x xs)) x (ne_sym first)
            ∙ h,
        k,
      ),
    )

pub Next-push :
    (n : ℕ → Option ℕ) (p a : ℕ) (bs : List ℕ) (q : ℕ)
    → p ≢ a
    → Fresh p bs
    → Fresh a bs
    → Next n p bs q
    → Next (update (update n p (some a)) a (some (first_or bs q))) p (a ∷ bs) q
Next-push n p a [] q ne f g h = (
  update_ne (update n p (some a)) a (some q) p ne ∙ update_self n p (some a),
  update_self (update n p (some a)) a (some q),
)
Next-push n p a (x ∷ xs) q ne (f, fs) (g, gs) (h, t) = (
  update_ne (update n p (some a)) a (some x) p ne ∙ update_self n p (some a),
  (
    update_self (update n p (some a)) a (some x),
    Next-frame (update n p (some a)) a (some x) x xs q g gs (Next-frame n p (some a) x xs q f fs t),
  ),
)

pub Prev-push :
    (v : ℕ → Option ℕ) (p a : ℕ) (bs : List ℕ) (q : ℕ)
    → a ≢ q
    → Distinct bs
    → Fresh q bs
    → Fresh a bs
    → Prev v p bs q
    → Prev (update (update v a (some p)) (first_or bs q) (some a)) p (a ∷ bs) q
Prev-push v p a [] q ne d f g h = (
  update_ne (update v a (some p)) q (some a) a ne ∙ update_self v a (some p),
  update_self (update v a (some p)) q (some a),
)
Prev-push v p a (x ∷ xs) q ne (d, ds) (f, fs) (g, gs) (h, t) = (
  update_ne (update v a (some p)) x (some a) a (ne_sym g) ∙ update_self v a (some p),
  (
    update_self (update v a (some p)) x (some a),
    Prev-frame (update v a (some p)) x (some a) x xs q (ne_sym f) d
        (Prev-frame v a (some p) x xs q (ne_sym ne) gs t),
  ),
)
