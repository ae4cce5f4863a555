-- ===== src/MsgQueue/Chain.antt =====
-- Chains of links in a store, and what a write to a cell leaves of them (src/kernel/msgqueue.c).
use myworkflow.Base.{
  ℕ, ◌≡◌, refl, sym, ap, subst, ◌∙◌, true, false, Option, none, some, List, [], ◌∷◌, ◌++◌, ◌==◌,
  arith,
}
use myworkflow.MsgQueue.{Cell, head1, head2, link, same_cell, Store, write, tail_after}

-- From the cell `c` the links visit the messages in order, and `t` is the cell that ends them.
abbrev pub Chain : Store → Cell → List ℕ → Cell → Type 0
Chain store c [] t = (store c ≡ none) × (c ≡ t)
Chain store c (x ∷ xs) t = (store c ≡ some x) × Chain store (link x) xs t

-- The cell `d` is not one of the chain's.
abbrev pub Off : Cell → Cell → List ℕ → Type 0
Off d c [] = same_cell d c ≡ false
Off d c (x ∷ xs) = (same_cell d c ≡ false) × Off d (link x) xs

abbrev pub Fresh : ℕ → List ℕ → Type 0
Fresh m [] = Unit
Fresh m (x ∷ xs) = (m == x ≡ false) × Fresh m xs

abbrev pub Nodup : List ℕ → Type 0
Nodup [] = Unit
Nodup (x ∷ xs) = Fresh x xs × Nodup xs

-- No message of the second list is in the first.
abbrev pub Apart : List ℕ → List ℕ → Type 0
Apart gs [] = Unit
Apart gs (p ∷ ps) = Fresh p gs × Apart gs ps

==_comm : (m n : ℕ) → m == n ≡ n == m
==_comm m n = ground arith

pub same_cell_refl : (c : Cell) → same_cell c c ≡ true
same_cell_refl head1 = refl
same_cell_refl head2 = refl
same_cell_refl (link n) = ground arith

pub same_cell_comm : (c d : Cell) → same_cell c d ≡ same_cell d c
same_cell_comm head1 head1 = refl
same_cell_comm head1 head2 = refl
same_cell_comm head1 (link n) = refl
same_cell_comm head2 head1 = refl
same_cell_comm head2 head2 = refl
same_cell_comm head2 (link n) = refl
same_cell_comm (link m) head1 = refl
same_cell_comm (link m) head2 = refl
same_cell_comm (link m) (link n) = ==_comm m n

pub write-Chain :
    (store : Store) (d : Cell) (v : Option ℕ) (c : Cell) (xs : List ℕ) (t : Cell)
    → Chain store c xs t
    → Off d c xs
    → Chain (write d v store) c xs t
write-Chain store d v c [] t (e, h) o = (rw (o, e), h)
write-Chain store d v c (x ∷ xs) t (e, h) (o, os) =
    (rw (o, e), write-Chain store d v (link x) xs t h os)

-- A cell off a chain is not its end.
pub Off-end :
    (store : Store) (d c : Cell) (xs : List ℕ) (t : Cell)
    → Chain store c xs t
    → Off d c xs
    → same_cell d t ≡ false
Off-end store d c [] t (e, h) o = ap (same_cell d) (sym h) ∙ o
Off-end store d c (x ∷ xs) t (e, h) (o, os) = Off-end store d (link x) xs t h os

pub Fresh-Off :
    (m : ℕ) (c : Cell) (xs : List ℕ) → same_cell (link m) c ≡ false → Fresh m xs → Off (link m) c xs
Fresh-Off m c [] e f = e
Fresh-Off m c (x ∷ xs) e (f, fs) = (e, Fresh-Off m (link x) xs f fs)

pub Off-end_other :
    (store : Store) (c : Cell) (ps : List ℕ) (t h : Cell) (gs : List ℕ)
    → Chain store c ps t
    → Off c h gs
    → ((m : ℕ) → same_cell (link m) h ≡ false)
    → Apart gs ps
    → Off t h gs
Off-end_other store c [] t h gs (e, same) o heads a = subst (λ d. Off d h gs) same o
Off-end_other store c (p ∷ ps) t h gs (e, ch) o heads (f, fs) =
    Off-end_other store (link p) ps t h gs ch (Fresh-Off p h gs (heads p) f) heads fs

pub head-Off :
    (h c : Cell) (xs : List ℕ)
    → same_cell h c ≡ false
    → ((m : ℕ) → same_cell h (link m) ≡ false)
    → Off h c xs
head-Off h c [] e heads = e
head-Off h c (x ∷ xs) e heads = (e, head-Off h (link x) xs (heads x) heads)

-- No cell of the chain is met twice.
abbrev pub Simple : Cell → List ℕ → Type 0
Simple c [] = Unit
Simple c (x ∷ xs) = Off c (link x) xs × Simple (link x) xs

Nodup-Simple : (x : ℕ) (xs : List ℕ) → Fresh x xs → Nodup xs → Simple (link x) xs
Nodup-Simple x [] f n = tt
Nodup-Simple x (y ∷ ys) (e, f) (g, n) = (Fresh-Off x (link y) ys e f, Nodup-Simple y ys g n)

pub head-Simple :
    (h : Cell) (xs : List ℕ) → ((m : ℕ) → same_cell h (link m) ≡ false) → Nodup xs → Simple h xs
head-Simple h [] heads n = tt
head-Simple h (x ∷ xs) heads (f, n) =
    (head-Off h (link x) xs (heads x) heads, Nodup-Simple x xs f n)

-- `*put_tail = link`, where the link is NULL, appends the message.
pub snoc-Chain :
    (store : Store) (c : Cell) (xs : List ℕ) (t : Cell) (m : ℕ)
    → Chain store c xs t
    → store (link m) ≡ none
    → Off (link m) c xs
    → Simple c xs
    → Chain (write t (some m) store) c (xs ++ (m ∷ [])) (link m)
snoc-Chain store c [] t m (e, same) none_m o s =
    (rw (sym same, same_cell_refl c), (rw (sym same, same_cell_comm c (link m), o, none_m), refl))
snoc-Chain store c (x ∷ xs) t m (e, ch) none_m (o, os) (s, ss) = (
  rw (same_cell_comm t c, Off-end store c (link x) xs t ch s, e),
  snoc-Chain store (link x) xs t m ch none_m os ss,
)

-- Taking the first message off a chain.
pub tail-Chain :
    (store : Store) (c : Cell) (x : ℕ) (xs : List ℕ) (t : Cell)
    → Chain store c (x ∷ xs) t
    → Off c (link x) xs
    → (t' : Cell) × Chain (write c (store (link x)) store) c xs t'
tail-Chain store c x [] t (e, (f, same)) o = (c, (rw (same_cell_refl c, f), refl))
tail-Chain store c x (y ∷ ys) t (e, (f, ch)) (o, os) =
    (t, (rw (same_cell_refl c, f), write-Chain store c (store (link x)) (link y) ys t ch os))

-- Writing a message before the first of a chain.
pub cons-Chain :
    (store : Store) (c : Cell) (m : ℕ) (xs : List ℕ) (t : Cell)
    → Chain store c xs t
    → Off (link m) c xs
    → Simple c xs
    → same_cell c (link m) ≡ false
    → Chain
        (write c (some m) (write (link m) (store c) store))
        c
        (m ∷ xs)
        (tail_after (store c) m t)
cons-Chain store c m [] t (e, same) o s a =
    (rw (same_cell_refl c), (rw (a, same_cell_refl (link m), e), rw e))
cons-Chain store c m (x ∷ xs) t (e, ch) (o, os) (s, ss) a = (
  rw (same_cell_refl c),
  (
    rw (a, same_cell_refl (link m), e),
    subst (Chain (write c (some m) (write (link m) (store c) store)) (link x) xs) (rw e) (
        write-Chain (write (link m) (store c) store) c (some m) (link x) xs t
          (write-Chain store (link m) (store c) (link x) xs t ch os) s),
  ),
)

pub Fresh-snoc : (x m : ℕ) (xs : List ℕ) → Fresh x xs → x == m ≡ false → Fresh x (xs ++ (m ∷ []))
Fresh-snoc x m [] f e = (e, tt)
Fresh-snoc x m (y ∷ ys) (g, f) e = (g, Fresh-snoc x m ys f e)

pub Nodup-snoc : (m : ℕ) (xs : List ℕ) → Nodup xs → Fresh m xs → Nodup (xs ++ (m ∷ []))
Nodup-snoc m [] n f = (tt, tt)
Nodup-snoc m (x ∷ xs) (g, n) (e, f) = (Fresh-snoc x m xs g (==_comm x m ∙ e), Nodup-snoc m xs n f)

pub Apart-snoc : (m : ℕ) (gs ps : List ℕ) → Apart gs ps → Fresh m gs → Apart gs (ps ++ (m ∷ []))
Apart-snoc m gs [] a f = (f, tt)
Apart-snoc m gs (p ∷ ps) (g, a) f = (g, Apart-snoc m gs ps a f)

pub Apart-cons : (m : ℕ) (gs ps : List ℕ) → Apart gs ps → Fresh m ps → Apart (m ∷ gs) ps
Apart-cons m gs [] a f = tt
Apart-cons m gs (p ∷ ps) (g, a) (e, f) = ((==_comm p m ∙ e, g), Apart-cons m gs ps a f)

pub Apart-tail : (g : ℕ) (gs ps : List ℕ) → Apart (g ∷ gs) ps → Apart gs ps
Apart-tail g gs [] a = tt
Apart-tail g gs (p ∷ ps) ((e, f), a) = (f, Apart-tail g gs ps a)
