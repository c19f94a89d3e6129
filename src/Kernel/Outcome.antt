-- ===== src/Kernel/Outcome.antt =====
-- Outcomes, commands and the primitive commands.
use jos_kernel.Base.{ℕ, Bool, if◌then◌else◌, update}
use jos_kernel.Kernel.State.{Kernel, PageInfo, Slot, Env, poke}

-- Where control goes when a function leaves the kernel.
pub data Exit : Type 0 where
  to_user : ℕ → Exit
  halted monitor : Exit

pub data Outcome (A : Type 0) : Type 0 where
  ok : A → Kernel → Outcome A
  left : Exit → Kernel → Outcome A
  panic : Outcome A
  -- a read or write through a null pointer
  fault : Outcome A

abbrev pub Cmd : Type 0 → Type 0
Cmd A = Kernel → Outcome A

abbrev pub pure : {A : Type 0} → A → Cmd A
pure = ok

module _ {A B : Type 0} where
  abbrev pub and_then : Outcome A → (A → Cmd B) → Outcome B
  and_then (ok a k) f = f a k
  and_then (left e k) f = left e k
  and_then panic f = panic
  and_then fault f = fault

  infixl 5 ◌>>=◌ ◌>>◌
  abbrev pub ◌>>=◌ : Cmd A → (A → Cmd B) → Cmd B
  m >>= f = λ k. and_then (m k) f

  abbrev pub ◌>>◌ : Cmd A → Cmd B → Cmd B
  m >> n = m >>= λ _. n

abbrev pub skip : Cmd (Unit {0})
skip = ok tt

abbrev pub when : Bool → Cmd (Unit {0}) → Cmd (Unit {0})
when b m = if b then m else skip

abbrev pub get : Cmd Kernel
get k = ok k k

abbrev pub put : Kernel → Cmd (Unit {0})
put k' k = ok tt k'

-- `*slot`
abbrev pub load : Slot → Cmd ℕ
load (p, i) k = ok (k.word p i) k

-- `*slot = v`
abbrev pub store : Slot → ℕ → Cmd (Unit {0})
store (p, i) v k = ok tt (record k { word = poke k.word p i v })

abbrev pub set_page : ℕ → PageInfo → Cmd (Unit {0})
set_page p info k = ok tt (record k { pages = update k.pages p info })

abbrev pub set_env : ℕ → Env → Cmd (Unit {0})
set_env e v k = ok tt (record k { envs = update k.envs e v })

-- The error codes of inc/error.h that the kernel returns.
pub data Error : Type 0 where
  bad_env inval no_mem no_free_env fault_err ipc_not_recv : Error

-- An `int` result: a value, or a negative error code.
pub data Ret : Type 0 where
  val : ℕ → Ret
  err : Error → Ret

-- Total correctness: the command returns, and the result and the state are as `P` says.
pub data Returns {A : Type 0} (P : A → Kernel → Type 0) : Outcome A → Type 0 where
  returned : {a : A} {k : Kernel} → P a k → Returns P (ok a k)

-- Control leaves the kernel, with the exit and the state as `P` says.
pub data Leaves {A : Type 0} (P : Exit → Kernel → Type 0) : Outcome A → Type 0 where
  leaves : {e : Exit} {k : Kernel} → P e k → Leaves P (left e k)

module _ {A : Type 0} {P : A → Kernel → Type 0} where
  -- The rule for a command that goes on with the result of another.
  pub Returns-and_then :
      {B : Type 0} {Q : B → Kernel → Type 0} {m : Outcome A} {f : A → Cmd B}
      → Returns P m
      → ((a : A) (k : Kernel) → P a k → Returns Q (f a k))
      → Returns Q (and_then m f)
  Returns-and_then (returned p) rest = rest _ _ p

  pub Returns-weaken :
      {Q : A → Kernel → Type 0} {m : Outcome A}
      → Returns P m
      → ((a : A) (k : Kernel) → P a k → Q a k)
      → Returns Q m
  Returns-weaken (returned p) imp = returned (imp _ _ p)

module _ {A B : Type 0} {P : Exit → Kernel → Type 0} where
  -- A caller is left with its callee.
  pub Leaves-and_then : {m : Outcome A} (f : A → Cmd B) → Leaves P m → Leaves P (and_then m f)
  Leaves-and_then f (leaves p) = leaves p
