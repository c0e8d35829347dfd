-- ===== src/Base/Exec/Laws.antt =====
-- Actions that never panic.
use Prim.Native.String.{String}
use k_deskflight.Base.Exec.{
  Outcome, returned, panicked, Exec, recover_with, recover, continue, ◌>>=◌, IsReturned,
}

module _ {S A B : Type 0} where
  continue-returns :
      (o : Outcome A) (f : A → Exec S B) (s : S)
      → IsReturned o
      → ((a : A) (t : S) → IsReturned (f a t).0)
      → IsReturned (continue o f s).0
  continue-returns (returned a) f s h k = k a s
  continue-returns (panicked v) f s h k = absurd h

  -- A chain returns if both parts do.
  pub bind-returns :
      (m : Exec S A) (f : A → Exec S B)
      → ((s : S) → IsReturned (m s).0)
      → ((a : A) (s : S) → IsReturned (f a s).0)
      → (s : S) → IsReturned ((m >>= f) s).0
  bind-returns m f h k s = continue-returns (m s).0 f (m s).1 (h s) k

module _ {S A : Type 0} where
  pub recover_with-returns :
      (o : Outcome A) (h : String → Exec S A) (s : S)
      → ((v : String) (t : S) → IsReturned (h v t).0)
      → IsReturned (recover_with o h s).0
  recover_with-returns (returned a) h s k = tt
  recover_with-returns (panicked v) h s k = k v s

  -- With a recovery that returns, the whole returns.
  pub recover-returns :
      (m : Exec S A) (h : String → Exec S A)
      → ((v : String) (s : S) → IsReturned (h v s).0)
      → (s : S) → IsReturned (recover m h s).0
  recover-returns m h k s = recover_with-returns (m s).0 h (m s).1 k

-- What holds of the value and the state after an action, if it does not panic.
abbrev pub Ensures : {S A : Type 0} → (A → S → Type 0) → Outcome A × S → Type 0
Ensures q (returned a, s) = q a s
Ensures q (panicked v, s) = Unit

-- The same of an action that does not panic.
abbrev pub Achieves : {S A : Type 0} → (A → S → Type 0) → Outcome A × S → Type 0
Achieves q (returned a, s) = q a s
Achieves q (panicked v, s) = ⊥

module _ {S A B : Type 0} (p : A → S → Type 0) (q : B → S → Type 0) where
  pub continue-Ensures :
      (o : Outcome A × S) (f : A → Exec S B)
      → Ensures p o
      → ((a : A) (t : S) → p a t → Ensures q (f a t))
      → Ensures q (continue o.0 f o.1)
  continue-Ensures (returned a, s) f h k = k a s h
  continue-Ensures (panicked v, s) f h k = tt

module _ {S A : Type 0} (q : A → S → Type 0) where
  pub recover-Achieves :
      (o : Outcome A × S) (h : String → Exec S A)
      → Ensures q o
      → ((v : String) (t : S) → Achieves q (h v t))
      → Achieves q (recover_with o.0 h o.1)
  recover-Achieves (returned a, s) h k l = k
  recover-Achieves (panicked v, s) h k l = l v s

  pub Achieves-of_returns : (o : Outcome A × S) → IsReturned o.0 → Ensures q o → Achieves q o
  Achieves-of_returns (returned a, s) r h = h
  Achieves-of_returns (panicked v, s) r h = r

-- Whatever an action does, the rest of a chain ensures what it ensures from every state.
pub chain-Ensures :
    {S A B : Type 0} (q : B → S → Type 0) (o : Outcome A × S) (f : A → Exec S B)
    → ((a : A) (t : S) → Ensures q (f a t))
    → Ensures q (continue o.0 f o.1)
chain-Ensures q (returned a, s) f k = k a s
chain-Ensures q (panicked v, s) f k = tt

-- A chain achieves what its second part achieves from whatever the first one does.
pub continue-Achieves :
    {S A B : Type 0} (p : A → S → Type 0) (q : B → S → Type 0) (o : Outcome A × S)
    (f : A → Exec S B)
    → Achieves p o
    → ((a : A) (t : S) → p a t → Achieves q (f a t))
    → Achieves q (continue o.0 f o.1)
continue-Achieves p q (returned a, s) f h k = k a s h
continue-Achieves p q (panicked v, s) f h k = absurd h

pub Achieves-mono :
    {S A : Type 0} (p q : A → S → Type 0) (o : Outcome A × S)
    → ((a : A) (s : S) → p a s → q a s)
    → Achieves p o
    → Achieves q o
Achieves-mono p q (returned a, s) f h = f a s h
Achieves-mono p q (panicked v, s) f h = h

-- An action that keeps a property of the state, also when it panics.
module _ {S : Type 0} (i : S → Type 0) where
  abbrev pub Preserves : {A : Type 0} → Exec S A → Type 0
  Preserves m = (s : S) → i s → i (m s).1

  continue-Preserves :
      {A B : Type 0} (o : Outcome A) (f : A → Exec S B) (s : S)
      → i s
      → ((a : A) → Preserves (f a))
      → i (continue o f s).1
  continue-Preserves (returned a) f s h k = k a s h
  continue-Preserves (panicked v) f s h k = h

  pub bind-Preserves :
      {A B : Type 0} (m : Exec S A) (f : A → Exec S B)
      → Preserves m
      → ((a : A) → Preserves (f a))
      → Preserves (m >>= f)
  bind-Preserves m f h k s p = continue-Preserves (m s).0 f (m s).1 (h s p) k

  recover_with-Preserves :
      {A : Type 0} (o : Outcome A) (h : String → Exec S A) (s : S)
      → i s
      → ((v : String) → Preserves (h v))
      → i (recover_with o h s).1
  recover_with-Preserves (returned a) h s p k = p
  recover_with-Preserves (panicked v) h s p k = k v s p

  pub recover-Preserves :
      {A : Type 0} (m : Exec S A) (h : String → Exec S A)
      → Preserves m
      → ((v : String) → Preserves (h v))
      → Preserves (recover m h)
  recover-Preserves m h k l s p = recover_with-Preserves (m s).0 h (m s).1 (k s p) l
