-- ===== src/Repl/Ends.antt =====
-- The rounds of the loop of `main` in src/gnaro.c as a step relation, and how the loop ends.
use gnaro.Base.{ℕ, zero, suc, ◌<◌, ◌≡◌, refl, arith, Option, none, some, List, [], ◌∷◌, length}
use gnaro.Memory.{Pager, Run, ok, exited, fault, out_of_fuel}
use gnaro.Pager.{Env}
use gnaro.Statement.Prepare.{Statement}
use gnaro.Input.{input_read, after_line}
use gnaro.Input.Lines.{after_line-shortens}
use gnaro.Repl.{Answer, repl_loop, run_line}

-- The second run stops as the first one does: by `exit`, by undefined behaviour, or for want of fuel.
pub data Stops {A : Type 0} {B : Type 0} (x : Run A) (y : Run B) : Type 0 where
  exits : x ≡ exited → y ≡ exited → Stops x y
  faults : x ≡ fault → y ≡ fault → Stops x y
  starves : x ≡ out_of_fuel → y ≡ out_of_fuel → Stops x y

module _ (env : Env) (fuel : ℕ) (statement : List ℕ → Statement) where
  -- Rounds that answer lead from an input and a state to the input that is left and the state then,
  -- with the answers in their order.
  pub data Rounds : List ℕ → Pager → List Answer → List ℕ → Pager → Type 0 where
    no_round : (input : List ℕ) (s : Pager) → Rounds input s [] input s
    round :
        (input line rest left : List ℕ) (s t u : Pager) (answer : Answer) (answers : List Answer)
        → input_read input ≡ some (line, rest)
        → run_line env fuel (statement rest) line s ≡ ok (some answer) t
        → Rounds rest t answers left u
        → Rounds input s (answer ∷ answers) left u

  -- How the loop ends, after rounds that answered: at the end of the input, with a line that leaves
  -- the loop, or with a line whose command stops the program.
  pub data LoopEnd (input : List ℕ) (s : Pager) (run : Run (List Answer)) : Type 0 where
    end_of_input :
        (answers : List Answer) (left : List ℕ) (u : Pager)
        → Rounds input s answers left u
        → input_read left ≡ none
        → run ≡ ok answers u
        → LoopEnd input s run
    leaves :
        (answers : List Answer) (left line rest : List ℕ) (u t : Pager)
        → Rounds input s answers left u
        → input_read left ≡ some (line, rest)
        → run_line env fuel (statement rest) line u ≡ ok none t
        → run ≡ ok answers t
        → LoopEnd input s run
    stops :
        (answers : List Answer) (left line rest : List ℕ) (u : Pager)
        → Rounds input s answers left u
        → input_read left ≡ some (line, rest)
        → Stops (run_line env fuel (statement rest) line u) run
        → LoopEnd input s run

  -- One more round in front.
  after_round :
      (input line rest : List ℕ) (s t : Pager) (answer : Answer) (run run' : Run (List Answer))
      → input_read input ≡ some (line, rest)
      → run_line env fuel (statement rest) line s ≡ ok (some answer) t
      → ((answers : List Answer) (u : Pager) → run ≡ ok answers u → run' ≡ ok (answer ∷ answers) u)
      → (run ≡ exited → run' ≡ exited)
      → (run ≡ fault → run' ≡ fault)
      → (run ≡ out_of_fuel → run' ≡ out_of_fuel)
      → LoopEnd rest t run
      → LoopEnd input s run'
  after_round input line rest s t answer run run' reads answers_it on_ok on_exit on_fault on_fuel
        (end_of_input answers left u rounds over is) =
      end_of_input (answer ∷ answers) left u
        (round input line rest left s t u answer answers reads answers_it rounds) over
        (on_ok answers u is)
  after_round input line rest s t answer run run' reads answers_it on_ok on_exit on_fault on_fuel
        (leaves answers left last rest' u v rounds reads' none_left is) =
      leaves (answer ∷ answers) left last rest' u v
        (round input line rest left s t u answer answers reads answers_it rounds) reads' none_left
        (on_ok answers v is)
  after_round input line rest s t answer run run' reads answers_it on_ok on_exit on_fault on_fuel
        (stops answers left last rest' u rounds reads' stop) =
      stops (answer ∷ answers) left last rest' u
        (round input line rest left s t u answer answers reads answers_it rounds) reads'
        (elim stop [
          | exits e is ↦ exits e (on_exit is)
          | faults e is ↦ faults e (on_fault is)
          | starves e is ↦ starves e (on_fuel is)
        ])

  -- A round on a line.
  with_line :
      (n : ℕ) (input line rest : List ℕ) (s : Pager)
      → input_read input ≡ some (line, rest)
      → ((t : Pager) → LoopEnd rest t (repl_loop env fuel statement n rest t))
      → (outcome : Run (Option Answer)) → run_line env fuel (statement rest) line s ≡ outcome
      → LoopEnd input s (repl_loop env fuel statement (suc n) input s)
  unfolding repl_loop
  with_line n input line rest s reads next exited runs =
      stops [] input line rest s (no_round input s) reads (exits runs (rw (reads, runs) refl))
  with_line n input line rest s reads next fault runs =
      stops [] input line rest s (no_round input s) reads (faults runs (rw (reads, runs) refl))
  with_line n input line rest s reads next out_of_fuel runs =
      stops [] input line rest s (no_round input s) reads (starves runs (rw (reads, runs) refl))
  with_line n input line rest s reads next (ok none t) runs =
      leaves [] input line rest s t (no_round input s) reads runs (rw (reads, runs) refl)
  with_line n input line rest s reads next (ok (some answer) t) runs =
      after_round input line rest s t answer (repl_loop env fuel statement n rest t)
        (repl_loop env fuel statement (suc n) input s) reads runs
        (λ answers u is. rw (reads, runs, is) refl) (λ is. rw (reads, runs, is) refl)
        (λ is. rw (reads, runs, is) refl) (λ is. rw (reads, runs, is) refl) (next t)

  shortens :
      (input line rest : List ℕ) → input_read input ≡ some (line, rest) → length rest < length input
  unfolding input_read
  shortens [] line rest reads = absurd (cc)
  shortens (c ∷ cs) line rest reads =
      let same : after_line (c ∷ cs) ≡ rest = cc in
      let bound = rw same at (after_line-shortens c cs) in omega arith

  by_read :
      (n : ℕ) (input : List ℕ) (s : Pager)
      → ((rest : List ℕ) (t : Pager)
          → length rest < length input
          → LoopEnd rest t (repl_loop env fuel statement n rest t))
      → (read : Option (List ℕ × List ℕ)) → input_read input ≡ read
      → LoopEnd input s (repl_loop env fuel statement (suc n) input s)
  by_read n input s next none over =
      end_of_input [] input s (no_round input s) over (unfold repl_loop in rw over refl)
  by_read n input s next (some (line, rest)) reads =
      with_line n input line rest s reads (λ t. next rest t (shortens input line rest reads))
        (run_line env fuel (statement rest) line s) refl

  -- With more rounds than there are bytes in the input, the loop comes to an end, after rounds that
  -- each read a line and answered it: it returns their answers, at the end of the input or with the
  -- line that leaves it, or it stops as the command of a line did. So it runs out of fuel only if a
  -- command does, in a state that the rounds before have led to.
  pub repl_loop-LoopEnd :
      (n : ℕ) (input : List ℕ) (s : Pager)
      → length input < n
      → LoopEnd input s (repl_loop env fuel statement n input s)
  repl_loop-LoopEnd zero input s enough = absurd (omega arith)
  repl_loop-LoopEnd (suc n) input s enough =
      by_read n input s (λ rest t shorter. repl_loop-LoopEnd n rest t (omega arith))
        (input_read input) refl
