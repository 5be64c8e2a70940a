-- ===== src/Database/Json.antt =====
-- JSON objects: stored responses, event payloads and the payloads that are fingerprinted. Identifiers,
-- amounts and times are numbers here.
use money_management_pstu_ha.Prelude.{String, Bool, Option, none, some, if◌then◌else◌, str_eq}
use money_management_pstu_ha.Prelude.Int.{ℤ}

mutual
  pub data Json : Type 0 where
    null : Json
    num : ℤ → Json
    str : String → Json
    flag : Bool → Json
    obj : Fields → Json

  pub data Fields : Type 0 where
    end : Fields
    field : String → Json → Fields → Fields

-- `body.get(key)`
unfoldable pub get : String → Fields → Option Json
get key end = none
get key (field k v rest) = if str_eq key k then some v else get key rest

-- `body[key] = value`
unfoldable pub put : String → Json → Fields → Fields
put key value end = field key value end
put key value (field k v rest) =
    if str_eq key k then field k value rest else field k v (put key value rest)

-- `{k: v for k, v in body.items() if k != key}`
unfoldable pub without : String → Fields → Fields
without key end = end
without key (field k v rest) =
    let others = without key rest in if str_eq key k then others else field k v others

-- `int(body.get(key, default))`
unfoldable pub int_or : ℤ → Option Json → ℤ
int_or d none = d
int_or d (some (num n)) = n
int_or d (some other) = d

-- `value or default` for a text.
unfoldable pub str_or : String → Option Json → String
str_or d none = d
str_or d (some (str s)) = s
str_or d (some other) = d
