-- ===== src/Json/Value.antt =====
-- The class `Json` of cli-cpp-legacy/src/json.hpp. `D` is the type `double`. The fields type_,
-- bool_, num_, str_, arr_ and obj_ are one data type, with the field that type_ selects.
use expo_builder_local.Prelude.{Bool, Bytes}

mutual
  pub data Json (D : Type 0) : Type 0 where
    null : Json D
    boolean : Bool → Json D
    number : D → Json D
    string : Bytes → Json D
    array : Items D → Json D
    object : Fields D → Json D

  -- std::vector<Json>
  pub data Items (D : Type 0) : Type 0 where
    nil : Items D
    cons : Json D → Items D → Items D

  -- std::vector<std::pair<std::string, Json>>, in insertion order
  pub data Fields (D : Type 0) : Type 0 where
    end : Fields D
    field : Bytes → Json D → Fields D → Fields D
