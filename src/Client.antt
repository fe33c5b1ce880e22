-- ===== src/Client.antt =====
-- What the program takes from client-go: the stores that the informers fill, and two functions.
use lbex.Prelude.{String, ◌≡◌, Option, List}
use lbex.Prelude.Int.{ℤ}
use lbex.K8s.{IntOrString, int, Object}

-- The answer of Store.GetByKey: `obj, exists, err`.
pub data Lookup : Type 0 where
  found : Object → Lookup
  absent : Lookup
  failed : String → Lookup

-- A cache.Store as it is when it is read.
pub record Store : Type 0 where
  pub get_by_key : String → Lookup
  pub list : List Object

-- `int_value` is IntOrString.IntValue, and `key_func` is DeletionHandlingMetaNamespaceKeyFunc.
pub record Client : Type 0 where
  pub int_value : IntOrString → ℤ
  pub int_value-int : (t : IntOrString) → t.type ≡ int → int_value t ≡ t.int_val
  pub key_func : Object → String × Option String
