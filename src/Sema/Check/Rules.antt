-- ===== src/Sema/Check/Rules.antt =====
-- The rules of `Runs`, one for each step of the checker (src/sema/sema.c).
use slop.Base.{◌<◌, ◌≡◌, refl, Bool, true, false, arith, if◌then◌else◌, if_both, Option, none, some}
use slop.Support.Diag.{SrcPos}
use slop.Sema.Types.{TyRef, ty_core}
use slop.Sema.Types.Kind.{TyKind}
use slop.Sema.Check.State.{Sema, Check, ◌>>=◌, follow, gets, error, note, core, poison, fails, put}
use slop.Sema.Check.Ready.{
  IsSome, is_core, Good, Moves, Moves-refl, Moves-trans, Runs, Then, Any, error-Moves, note-Moves,
}

module _ {A : Type 0} {V W : A → Type 0} where
  pub Runs-map :
      {V1 W1 : A → Type 0} {s : Sema} {o : Option (Sema × A)}
      → ((a : A) → V1 a → V a)
      → ((a : A) → V1 a → W1 a → W a)
      → Runs V1 W1 s o
      → Runs V W s o
  Runs-map f h r = record {
    next = r.next;
    result = r.result;
    run = r.run;
    moves = r.moves;
    always = f r.result r.always;
    clean = λ e. h r.result r.always (r.clean e);
  }

  -- The same with nothing owed.
  pub Runs-Any :
      {s : Sema} {o : Option (Sema × A)} → ((a : A) → W a) → Runs V Any s o → Runs V W s o
  Runs-Any w r = Runs-map (λ a v. v) (λ a v _. w a) r

  -- After a report the clean part is not owed.
  pub Runs-void :
      (s : Sema) {q : Sema} {o : Option (Sema × A)}
      → s.diag.count < q.diag.count
      → Runs V Any q o
      → Runs V (Then s q W) q o
  Runs-void s up r = record {
    next = r.next;
    result = r.result;
    run = r.run;
    moves = r.moves;
    always = r.always;
    clean = λ _ e. absurd (omega (arith, e, up));
  }

  pub Runs-pure : {s : Sema} {a : A} → Good s → V a → W a → Runs V W s (some (s, a))
  Runs-pure g v w = record {
    next = _;
    result = _;
    run = refl;
    moves = Moves-refl g;
    always = v;
    clean = λ _. w;
  }

  pub Runs-after :
      {s q : Sema} {o : Option (Sema × A)} → Moves s q → Runs V (Then s q W) q o → Runs V W s o
  Runs-after {s} {q} m r = record {
    next = r.next;
    result = r.result;
    run = r.run;
    moves = Moves-trans m r.moves;
    always = r.always;
    clean = λ e.
        r.clean (omega (arith, e, m.count, r.moves.count))
          (omega (arith, e, m.count, r.moves.count));
  }

  -- The step's own run is at hand behind it.
  pub Runs-bind-run :
      {C : Type 0} (V1 W1 : C → Type 0) (m : Check C) (f : C → Check A) {s : Sema}
      → Runs V1 W1 s (m s)
      → ((q : Sema) (c : C)
          → m s ≡ some (q, c)
          → Moves s q
          → V1 c
          → (q.diag.count ≡ s.diag.count → W1 c)
          → Runs V (Then s q W) q (f c q))
      → Runs V W s ((m >>= f) s)
  unfolding ◌>>=◌
  Runs-bind-run V1 W1 m f {s} r k =
      rw (r.run, ◌>>=◌) (Runs-after r.moves (k r.next r.result r.run r.moves r.always r.clean))

  pub Runs-bind :
      {C : Type 0} (V1 W1 : C → Type 0) (m : Check C) (f : C → Check A) {s : Sema}
      → Runs V1 W1 s (m s)
      → ((q : Sema) (c : C)
          → Moves s q
          → V1 c
          → (q.diag.count ≡ s.diag.count → W1 c)
          → Runs V (Then s q W) q (f c q))
      → Runs V W s ((m >>= f) s)
  Runs-bind V1 W1 m f r k = Runs-bind-run V1 W1 m f r (λ q c _ m1 v w. k q c m1 v w)

module _ {A : Type 0} {V W : A → Type 0} {s : Sema} where
  pub Runs-gets :
      {C : Type 0} (h : Sema → C) (f : C → Check A)
      → Runs V W s (f (h s) s)
      → Runs V W s ((gets h >>= f) s)
  unfolding ◌>>=◌
  Runs-gets h f r = r

  -- A change of the state.
  pub Runs-put :
      (h : Sema → Sema) (f : Unit {0} → Check A)
      → Moves s (h s)
      → Runs V (Then s (h s) W) (h s) (f tt (h s))
      → Runs V W s ((put h >>= f) s)
  unfolding ◌>>=◌
  Runs-put h f m r = Runs-after m r

  -- A conditional, each branch under its test.
  pub Runs-if :
      (b : Bool) (m n : Check A)
      → (b ≡ true → Runs V W s (m s))
      → (b ≡ false → Runs V W s (n s))
      → Runs V W s ((if b then m else n) s)
  Runs-if b m n x y = if_both (λ (k : Check A). Runs V W s (k s)) b x y

  -- A step of two.
  pub Runs-option :
      {C : Type 0} (o : Option C) (m : Check A) (f : C → Check A)
      → (o ≡ none → Runs V W s (m s))
      → ((c : C) → o ≡ some c → Runs V W s (f c s))
      → Runs V W s ((elim o as (λ (_ : Option C). Check A) [ none ↦ m | some c ↦ f c ]) s)
  Runs-option none m f x y = x refl
  Runs-option (some c) m f x y = y c refl

  pub Runs-follow :
      {C : Type 0} (o : Option C) (f : C → Check A)
      → IsSome o
      → ((c : C) → o ≡ some c → Runs V W s (f c s))
      → Runs V W s ((follow o >>= f) s)
  unfolding ◌>>=◌
  Runs-follow none f h k = elim h [ ]
  Runs-follow (some c) f h k = k c refl

  pub Runs-error :
      (pos : SrcPos) (f : Unit {0} → Check A)
      → Good s
      → ((q : Sema) → Moves s q → s.diag.count < q.diag.count → Runs V Any q (f tt q))
      → Runs V W s ((error pos >>= f) s)
  unfolding ◌>>=◌
  Runs-error pos f g k = let (m, up) = error-Moves pos g in Runs-after m (Runs-void s up (k _ m up))

  pub Runs-core :
      (kind : TyKind)
      → is_core kind ≡ true
      → (f : TyRef → Check A) → Good s
      → ((r : TyRef) → Runs V W s (f r s))
      → Runs V W s ((core kind >>= f) s)
  unfolding ◌>>=◌ core
  Runs-core kind c f g k = Runs-follow (ty_core s.types kind) f (g.types.cores kind c) (λ r e. k r)

-- A pointer that is there.
pub follow-Runs :
    {A : Type 0} (o : Option A) {s : Sema} → IsSome o → Good s → Runs Any Any s (follow o s)
follow-Runs none h g = elim h [ ]
follow-Runs (some a) h g = Runs-pure g tt tt

pub core-Runs :
    (kind : TyKind) {s : Sema} → is_core kind ≡ true → Good s → Runs Any Any s (core kind s)
unfolding core
core-Runs kind {s} c g = follow-Runs (ty_core s.types kind) (g.types.cores kind c) g

pub poison-Runs : {s : Sema} → Good s → Runs Any Any s (poison s)
unfolding poison
poison-Runs g = core-Runs TyKind.poison refl g

-- A check that ends at once: an error, or nothing.
pub error-Runs : (pos : SrcPos) {s : Sema} → Good s → Runs Any Any s (error pos s)
error-Runs pos g =
    let (m, up) = error-Moves pos g in
    record { next = _; result = _; run = refl; moves = m; always = tt; clean = λ _. tt }

pub note-Runs : (pos : SrcPos) {s : Sema} → Good s → Runs Any Any s (note pos s)
note-Runs pos g = record {
  next = _;
  result = _;
  run = refl;
  moves = note-Moves pos g;
  always = tt;
  clean = λ _. tt;
}

pub skip-Runs : {s : Sema} → Good s → Runs {A = Unit {0}} Any Any s (some (s, tt))
skip-Runs g = Runs-pure g tt tt

-- No result is owed where nothing was reported: something was.
abbrev pub Never : {A : Type 0} → A → Type 0
Never a = ⊥

-- An error and poison.
pub fails-Runs : (pos : SrcPos) {s : Sema} → Good s → Runs Any Never s (fails pos s)
unfolding fails
fails-Runs pos g = Runs-error pos _ g (λ q m up. poison-Runs m.good)

-- Under a report made before, any clean part holds.
pub Runs-Never :
    {A : Type 0} {V W : A → Type 0} {s : Sema} {o : Option (Sema × A)}
    → Runs V Never s o
    → Runs V W s o
Runs-Never r = Runs-map (λ a v. v) (λ a v b. elim b [ ]) r
