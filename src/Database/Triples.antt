-- ===== src/Database/Triples.antt =====
-- Triples for one statement, over what the tables hold.
use order_mock_payment.Prelude.{ℕ, suc, ◌≡◌, refl, Bool, Option, none, some, List}
use order_mock_payment.Database.Table.{find_from}
use order_mock_payment.Go.Error.{DriverError}
use order_mock_payment.Go.Exec.{Result, ok, err}
use order_mock_payment.Go.Exec.Hoare.{Post, Triple, Triple-weaken}
use order_mock_payment.Database.World.{
  World, Tables, Environment, Outcome, executed, refused, lost, answer, or_no_rows, statement,
  get_context, get_first, rows_affected, counted,
}

module _ {D A : Type 0} (P : Tables D → Type 0) (Q : A → Tables D → Type 0)
    (E : Tables D → Type 0) where
  answer-Post :
      (o : Outcome) (r : Result A) (t : Tables D) (w : World D)
      → P w.tables
      → ((s : Tables D) → P s → E s)
      → ((a : A) (s : Tables D) → Q a s → E s)
      → Post Q (λ _. E) (r, t)
      → Post (λ a v. Q a v.tables) (λ _ v. E v.tables) (answer o (r, t) w)
  answer-Post executed (ok a) t w p pe qe h = h
  answer-Post executed (err e) t w p pe qe h = h
  answer-Post (refused e) r t w p pe qe h = pe w.tables p
  answer-Post (lost e) (ok a) t w p pe qe h = qe a t h
  answer-Post (lost e) (err c) t w p pe qe h = h

  -- Whatever the environment answers, a statement ends in `Q` or in `E`.
  pub Triple-statement :
      (env : Environment) (run : ℕ → ℕ → Tables D → Result A × Tables D)
      → ((s : Tables D) → P s → E s)
      → ((a : A) (s : Tables D) → Q a s → E s)
      → ((id now : ℕ) (t : Tables D) → P t → Post Q (λ _. E) (run id now t))
      → Triple (λ w. P w.tables) (statement env run) (λ a w. Q a w.tables) (λ _ w. E w.tables)
  unfolding statement
  Triple-statement env run pe qe h = record {
    at = λ w p.
        let n = w.statements in
        let (r, t) = run (env.new_id n) (env.now n) w.tables in
        answer-Post (env.outcome n) r t (record w { statements = suc n }) p pe qe
          (h (env.new_id n) (env.now n) w.tables p);
  }

module _ {D A : Type 0} (P : Tables D → Type 0) where
  found-Post :
      (query : Tables D → Option A) (o : Option A) (t : Tables D)
      → query t ≡ o
      → P t
      → Post (λ a s. P s × (query s ≡ some a)) (λ _. P) (or_no_rows o, t)
  found-Post query none t e p = p
  found-Post query (some a) t e p = (p, e)

  -- A query changes no table, and what it returns is what it finds.
  pub Triple-get_context :
      (env : Environment) (query : Tables D → Option A)
      → Triple
          (λ w. P w.tables)
          (get_context env query)
          (λ a w. P w.tables × (query w.tables ≡ some a))
          (λ _ w. P w.tables)
  unfolding get_context
  Triple-get_context env query =
      Triple-statement P (λ a s. P s × (query s ≡ some a)) P env _ (λ s p. p) (λ a s h. h.0)
        (λ id now t p. found-Post query (query t) t refl p)

  -- Nor does a query that several rows may match.
  pub Triple-get_first :
      (env : Environment) (rows : Tables D → List A) (test : A → Bool)
      → Triple
          (λ w. P w.tables)
          (get_first env rows test)
          (λ a w. P w.tables × ((k : ℕ) × (find_from k test (rows w.tables) ≡ some a)))
          (λ _ w. P w.tables)
  unfolding get_first
  Triple-get_first env rows test = record {
    at = λ w p.
        let k = env.start w.statements in
        (Triple-weaken (Triple-get_context env (λ t. find_from k test (rows t)))
            (λ _ _ h. (h.0, (k, h.1))) (λ _ _ h. h)).at
          w p;
  }

module _ {D : Type 0} (P : Tables D → Type 0) where
  counted-Post :
      (o : Option DriverError) (n : ℕ) (w : World D)
      → P w.tables
      → Post (λ _ v. P v.tables) (λ _ v. P v.tables) (counted o n, w)
  counted-Post none n w p = p
  counted-Post (some e) n w p = p

  -- Counting rows changes nothing.
  pub Triple-rows_affected :
      (env : Environment) (n : ℕ)
      → Triple (λ w. P w.tables) (rows_affected env n) (λ _ w. P w.tables) (λ _ w. P w.tables)
  unfolding rows_affected
  Triple-rows_affected env n = record {
    at = λ w p. counted-Post (env.count_error w.statements) n w p;
  }
