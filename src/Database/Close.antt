-- ===== src/Database/Close.antt =====
-- The loop of `database_close` flushes every cached page.
use gnaro.Base.{
  ℕ, zero, suc, ◌+◌, ◌*◌, ◌≤◌, ◌<◌, ◌≡◌, refl, arith, Option, none, some, false, lt→not_leb,
}
use gnaro.Memory.{Pager, ok, page_size, ◌>>◌}
use gnaro.Memory.Bytes.{Page}
use gnaro.Pager.{Env, pager_max_pages, write_page, pager_flush}
use gnaro.Database.{flush_page, flush_loop}
use gnaro.Database.Flushed.{Flushed, dropped, Flushed-none, Flushed-some, Flushed-all}

module _ (env : Env) (seeks : (o : ℕ) → env.seek_fails o ≡ false)
    (writes : (o : ℕ) → env.write_fails o ≡ false) where
  flush_page-none :
      (i : ℕ) (s : Pager) → i < pager_max_pages → s.pages i ≡ none → flush_page env i s ≡ ok tt s
  unfolding flush_page
  flush_page-none i s small miss = rw (lt→not_leb pager_max_pages i small, miss)

  pager_flush-some :
      (i : ℕ) (s : Pager) (p : Page)
      → i < pager_max_pages
      → s.pages i ≡ some p
      → pager_flush env i s
        ≡ ok tt (record s { file_descriptor = write_page s.file_descriptor i p })
  unfolding pager_flush
  pager_flush-some i s p small here =
      rw (lt→not_leb pager_max_pages i small, here, seeks (i * page_size), writes (i * page_size))

  flush_page-some :
      (i : ℕ) (s : Pager) (p : Page)
      → i < pager_max_pages
      → s.pages i ≡ some p
      → flush_page env i s ≡ ok tt (dropped i p s)
  unfolding flush_page
  flush_page-some i s p small here =
      rw (lt→not_leb pager_max_pages i small, here, pager_flush-some i s p small here)

flush_step :
    (env : Env)
    → ((o : ℕ) → env.seek_fails o ≡ false)
    → ((o : ℕ) → env.write_fails o ≡ false)
    → (rounds i end : ℕ) (s : Pager) → i < end
    → end ≤ pager_max_pages
    → ((s' : Pager)
        → (t : Pager) × (flush_loop env rounds (suc i) s' ≡ ok tt t) × Flushed (suc i) end s' t)
    → (page : Option Page) → s.pages i ≡ page
    → (t : Pager) × ((flush_page env i >> flush_loop env rounds (suc i)) s ≡ ok tt t)
      × Flushed i end s t
flush_step env seeks writes rounds i end s low few rest none miss =
    let (t, runs, f) = rest s in
    (
      t,
      rw (flush_page-none env seeks writes i s (omega arith) miss, runs) refl,
      Flushed-none i end s t miss f,
    )
flush_step env seeks writes rounds i end s low few rest (some p) here =
    let (t, runs, f) = rest (dropped i p s) in
    (
      t,
      rw (flush_page-some env seeks writes i s p (omega arith) here, runs) refl,
      Flushed-some i end s t p here low f,
    )

-- The loop of `database_close` flushes the cached pages and keeps the others of the file.
pub flush_loop-Flushed :
    (env : Env)
    → ((o : ℕ) → env.seek_fails o ≡ false)
    → ((o : ℕ) → env.write_fails o ≡ false)
    → (rounds i end : ℕ) (s : Pager) → i + rounds ≡ end
    → end ≤ pager_max_pages
    → (t : Pager) × (flush_loop env rounds i s ≡ ok tt t) × Flushed i end s t
unfolding flush_loop
flush_loop-Flushed env seeks writes zero i end s e few =
    (s, refl, Flushed-all i end s (omega arith))
flush_loop-Flushed env seeks writes (suc rounds) i end s e few =
    let next : i + 1 ≡ suc i = omega arith in
    rw next (
      flush_step env seeks writes rounds i end s (omega arith) few
        (λ s'. flush_loop-Flushed env seeks writes rounds (suc i) end s' (omega arith) few)
        (s.pages i) refl)
