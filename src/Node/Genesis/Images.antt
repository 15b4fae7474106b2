-- ===== src/Node/Genesis/Images.antt =====
-- Lists of texts and the accounts that they lead to, for node/src/chain_spec.rs.
use cyborg_chain.Prelude.{
  Bytes, All, length, Distinct, Images, ◌≡◌, refl, ◌≢◌, Option, some, List, [], ◌∷◌, ◌++◌, map,
  Memᴰ, suc, ap,
}
use cyborg_chain.Frame.{AccountId}
use cyborg_chain.Node.ChainSpec.{all_of}
use cyborg_chain.Node.Genesis.{bind_inv}

-- Different texts of the list lead to different accounts.
abbrev pub AreApart : {A : Type 0} → (A → Option AccountId) → List A → Type 0
AreApart {A} f xs =
    (x y : A) (a : AccountId) → Memᴰ x xs → Memᴰ y xs → f x ≡ some a → f y ≡ some a → x ≡ y

pub Images-all_of :
    {A : Type 0} (f : Bytes → Option A) (xs : List Bytes) (ys : List A)
    → all_of f xs ≡ some ys
    → Images f xs ys
unfolding all_of
Images-all_of f [] [] h = tt
Images-all_of f [] (y ∷ ys) h = absurd (cc)
Images-all_of f (x ∷ xs) ys h =
    let (a, fx, h') = bind_inv (f x) _ h in
    let (rest, found, e) = bind_inv (all_of f xs) _ h' in
    let same : a ∷ rest ≡ ys = cc in rw (← same) (fx, Images-all_of f xs rest found)

pub Images-map :
    {A : Type 0} (f : A → Option AccountId) (g : Bytes → A) (xs : List Bytes) (ys : List AccountId)
    → Images (λ x. f (g x)) xs ys
    → Images f (map g xs) ys
Images-map f g [] [] h = tt
Images-map f g [] (y ∷ ys) h = h
Images-map f g (x ∷ xs) [] h = h
Images-map f g (x ∷ xs) (y ∷ ys) h = (h.0, Images-map f g xs ys h.1)

pub Images-append :
    {A : Type 0} (f : A → Option AccountId) (xs zs : List A) (ys ws : List AccountId)
    → Images f xs ys
    → Images f zs ws
    → Images f (xs ++ zs) (ys ++ ws)
Images-append f [] zs [] ws h k = k
Images-append f [] zs (y ∷ ys) ws h k = absurd h
Images-append f (x ∷ xs) zs [] ws h k = absurd h
Images-append f (x ∷ xs) zs (y ∷ ys) ws h k = (h.0, Images-append f xs zs ys ws h.1 k)

-- Where one text is apart from a list of texts, its account is apart from theirs.
accounts_apart :
    {A : Type 0} (f : A → Option AccountId) (x : A) (y : AccountId) (xs : List A)
    (ys : List AccountId)
    → f x ≡ some y
    → Images f xs ys
    → ((z : A) → Memᴰ z xs → f z ≡ some y → x ≡ z)
    → All (λ z. x ≢ z) xs
    → All (λ z. y ≢ z) ys
accounts_apart f x y [] [] hx h apart ne = tt
accounts_apart f x y [] (z ∷ zs) hx h apart ne = absurd h
accounts_apart f x y (w ∷ ws) [] hx h apart ne = absurd h
accounts_apart f x y (w ∷ ws) (z ∷ zs) hx h apart ne = (
  λ e. ne.0 (apart w (Memᴰ.head refl) (cc (h.0, e))),
  accounts_apart f x y ws zs hx h.1 (λ v m. apart v (Memᴰ.tail m)) ne.1,
)

pub Images-Distinct :
    {A : Type 0} (f : A → Option AccountId) (xs : List A) (ys : List AccountId)
    → Images f xs ys
    → AreApart f xs
    → Distinct xs
    → Distinct ys
Images-Distinct f [] [] h apart d = tt
Images-Distinct f [] (y ∷ ys) h apart d = absurd h
Images-Distinct f (x ∷ xs) [] h apart d = absurd h
Images-Distinct f (x ∷ xs) (y ∷ ys) h apart d = (
  accounts_apart f x y xs ys h.0 h.1 (λ z m. apart x z y (Memᴰ.head refl) (Memᴰ.tail m) h.0) d.0,
  Images-Distinct f xs ys h.1 (λ u v a m n. apart u v a (Memᴰ.tail m) (Memᴰ.tail n)) d.1,
)

pub Images-length :
    {A : Type 0} (f : A → Option AccountId) (xs : List A) (ys : List AccountId)
    → Images f xs ys
    → length ys ≡ length xs
Images-length f [] [] h = refl
Images-length f [] (y ∷ ys) h = absurd h
Images-length f (x ∷ xs) [] h = absurd h
Images-length f (x ∷ xs) (y ∷ ys) h = ap suc (Images-length f xs ys h.1)
