-- ===== src/Memory/Laws.antt =====
-- What the accesses of the memory do where the page is allocated and the access stays within it.
use gnaro.Base.{
  ℕ, ◌+◌, ◌≤◌, ◌<◌, ◌≡◌, ◌≢◌, Option, some, List, arith, ==_refl, le→leb, ne→not_==, fun_ext,
  length, lt→not_leb, ap, ◌∙◌,
}
use gnaro.Memory.{
  Pager, ok, fault, Cmd, page_size, update, put, access, load8, store8, load32, store32, memcpy,
  store_bytes, load_bytes,
}
use gnaro.Memory.Bytes.{Page, word, set_word, blit, write_bytes, read_bytes}

pub update_self : (f : ℕ → Option Page) (n : ℕ) (p : Option Page) → update f n p n ≡ p
unfolding update
update_self f n p = rw (==_refl n)

pub update_ne : (f : ℕ → Option Page) (n m : ℕ) (p : Option Page) → m ≢ n → update f n p m ≡ f m
unfolding update
update_ne f n m p h = rw (ne→not_== m n h)

pub update-update :
    (f : ℕ → Option Page) (n : ℕ) (p q : Option Page) → update (update f n p) n q ≡ update f n q
unfolding update
update-update f n p q = fun_ext λ m. ground arith

pub put-put : (n : ℕ) (p q : Page) (s : Pager) → put n q (put n p s) ≡ put n q s
put-put n p q s = λ i. record s { pages = update-update s.pages n (some p) (some q) i }

pub put_self : (n : ℕ) (p : Page) (s : Pager) → s.pages n ≡ some p → put n p s ≡ s
put_self n p s h = λ i. record s { pages = same i }
  where
    same : update s.pages n (some p) ≡ s.pages
    same = fun_ext λ m. unfold update in ground arith

module _ (n : ℕ) (s : Pager) {p : Page} (here : s.pages n ≡ some p) where
  pub access-ok {ℓ} :
      {A : Type ℓ} (o size : ℕ) (k : Page → Cmd A)
      → o + size ≤ page_size
      → access n o size k s ≡ k p s
  unfolding access
  access-ok o size k h = rw (le→leb (o + size) page_size h, here)

  pub load8-ok : (o : ℕ) → o + 1 ≤ page_size → load8 n o s ≡ ok (p o) s
  unfolding load8
  load8-ok o h = access-ok o 1 _ h

  pub store8-ok :
      (o v : ℕ) → o + 1 ≤ page_size → store8 n o v s ≡ ok tt (put n (blit p o (λ _. v) 0 1) s)
  unfolding store8
  store8-ok o v h = access-ok o 1 _ h

  pub load32-ok : (o : ℕ) → o + 4 ≤ page_size → load32 n o s ≡ ok (word p o) s
  unfolding load32
  load32-ok o h = access-ok o 4 _ h

  pub store32-ok :
      (o v : ℕ) → o + 4 ≤ page_size → store32 n o v s ≡ ok tt (put n (set_word p o v) s)
  unfolding store32
  store32-ok o v h = access-ok o 4 _ h

  pub store_bytes-ok :
      (o : ℕ) (bs : List ℕ)
      → o + length bs ≤ page_size
      → store_bytes n o bs s ≡ ok tt (put n (write_bytes p o bs) s)
  unfolding store_bytes
  store_bytes-ok o bs h = access-ok o (length bs) _ h

  pub load_bytes-ok :
      (o size : ℕ) → o + size ≤ page_size → load_bytes n o size s ≡ ok (read_bytes p o size) s
  unfolding load_bytes
  load_bytes-ok o size h = access-ok o size _ h

pub memcpy-ok :
    (n m : ℕ) (s : Pager) {p q : Page}
    → s.pages n ≡ some p
    → s.pages m ≡ some q
    → (o source size : ℕ) → source + size ≤ page_size
    → o + size ≤ page_size
    → memcpy n o m source size s ≡ ok tt (put n (blit p o q source size) s)
unfolding memcpy
memcpy-ok n m s here there o source size fits h =
    access-ok m s there source size _ fits ∙ access-ok n s here o size _ h

-- The same at a state in which page `n` has just been written: such states are the normal form of
-- a run that works on one page.
module _ (n : ℕ) (p : Page) (s : Pager) where
  there : (put n p s).pages n ≡ some p
  there = update_self s.pages n (some p)

  pub load8-put : (o : ℕ) → o + 1 ≤ page_size → load8 n o (put n p s) ≡ ok (p o) (put n p s)
  load8-put o h = load8-ok n (put n p s) there o h

  pub load32-put : (o : ℕ) → o + 4 ≤ page_size → load32 n o (put n p s) ≡ ok (word p o) (put n p s)
  load32-put o h = load32-ok n (put n p s) there o h

  pub load_bytes-put :
      (o size : ℕ)
      → o + size ≤ page_size
      → load_bytes n o size (put n p s) ≡ ok (read_bytes p o size) (put n p s)
  load_bytes-put o size h = load_bytes-ok n (put n p s) there o size h

  pub store8-put :
      (o v : ℕ)
      → o + 1 ≤ page_size
      → store8 n o v (put n p s) ≡ ok tt (put n (blit p o (λ _. v) 0 1) s)
  store8-put o v h =
      store8-ok n (put n p s) there o v h ∙ ap (ok tt) (put-put n p (blit p o (λ _. v) 0 1) s)

  pub store32-put :
      (o v : ℕ) → o + 4 ≤ page_size → store32 n o v (put n p s) ≡ ok tt (put n (set_word p o v) s)
  store32-put o v h =
      store32-ok n (put n p s) there o v h ∙ ap (ok tt) (put-put n p (set_word p o v) s)

  pub store_bytes-put :
      (o : ℕ) (bs : List ℕ)
      → o + length bs ≤ page_size
      → store_bytes n o bs (put n p s) ≡ ok tt (put n (write_bytes p o bs) s)
  store_bytes-put o bs h =
      store_bytes-ok n (put n p s) there o bs h ∙ ap (ok tt) (put-put n p (write_bytes p o bs) s)

  pub memcpy-put :
      (o source size : ℕ)
      → source + size ≤ page_size
      → o + size ≤ page_size
      → memcpy n o n source size (put n p s) ≡ ok tt (put n (blit p o p source size) s)
  memcpy-put o source size fits h =
      memcpy-ok n n (put n p s) there there o source size fits h
      ∙ ap (ok tt) (put-put n p (blit p o p source size) s)

-- An access that leaves the page is undefined.
pub access-fault {ℓ} :
    {A : Type ℓ} (n o size : ℕ) (k : Page → Cmd A) (s : Pager)
    → page_size < o + size
    → access n o size k s ≡ fault
unfolding access
access-fault n o size k s h = rw (lt→not_leb (o + size) page_size h)
