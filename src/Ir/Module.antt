-- ===== src/Ir/Module.antt =====
-- A module and what is declared in it (src/ir/ir.c). A struct type is a tree: its body is put into it
-- when it is set, and the module keeps the names in their order.
use slop.Base.{
  ℕ, ◌+◌, ◌%◌, ◌^◌, List, [], ◌∷◌, ◌++◌, Bool, true, false, Option, none, some, length, set,
  get_elem?,
}
use slop.Lexer.Kind.{codes}
use slop.Ir.Types.{IrType, IrTypes, int_type, ptr_type, array_type, struct_type, no_fields}
use slop.Ir.Data.{IrValue, local, global, IrFunction, IrGlobal, IrModule}
use slop.Ir.Names.{fmt_name}

unfoldable pub ir_module_new : List ℕ → IrModule
ir_module_new name' = record {
  name = name';
  globals = [];
  functions = [];
  structs = [];
  next_string = 0;
  next_id = 0;
}

abbrev pub ir_type_struct : IrModule → List ℕ → IrModule × IrType
ir_type_struct m name' =
    (record m { structs = m.structs ++ (name' ∷ []) }, struct_type name' no_fields)

abbrev pub ir_struct_set_body : IrType → IrTypes → IrType
ir_struct_set_body (struct_type name' old) body = struct_type name' body
ir_struct_set_body t body = t

-- The parameters `%arg0`, `%arg1`, ... from a number and an address on.
unfoldable pub new_params : ℕ → ℕ → List IrType → List IrValue
new_params i id' [] = []
new_params i id' (t ∷ ts) =
    record { id = id'; kind = local; type = t; ival = 0; name = fmt_name (codes "arg") i }
    ∷ new_params (i + 1) (id' + 1) ts

unfoldable pub ir_function_new :
    IrModule → List ℕ → IrType → List IrType → Bool → Bool → IrModule × IrFunction
unfolding new_params
ir_function_new m name' ret' param_types vararg declaration =
    let f : IrFunction = record {
      name = name';
      ret = ret';
      params = new_params 0 m.next_id param_types;
      is_vararg = vararg;
      is_declaration = declaration;
      blocks = [];
    } in
    (record m { functions = m.functions ++ (f ∷ []); next_id = m.next_id + length param_types }, f)

-- A parameter out of range changes nothing.
unfoldable pub ir_param_set_name : IrFunction → ℕ → List ℕ → IrFunction
ir_param_set_name f i name' = elim (get_elem? f.params i) [
  | none ↦ f
  | some v ↦ record f { params = set f.params i (record v { name = name' }) }
]

abbrev pub global_append : IrModule → IrGlobal → IrModule
global_append m g = record m { globals = m.globals ++ (g ∷ []) }

unfoldable pub ir_global_new : IrModule → List ℕ → IrType → Option IrValue → IrModule × IrGlobal
ir_global_new m name' t init' =
    let g : IrGlobal = record {
      name = name';
      type = t;
      init = init';
      str = none;
      is_const = false;
      is_private = false;
      is_external = false;
    } in
    (global_append m g, g)

unfoldable pub ir_global_extern : IrModule → List ℕ → IrType → IrModule × IrGlobal
ir_global_extern m name' t =
    let g : IrGlobal = record {
      name = name';
      type = t;
      init = none;
      str = none;
      is_const = false;
      is_private = false;
      is_external = true;
    } in
    (global_append m g, g)

-- A string constant with its NUL, under the next name `.str.n`.
unfoldable pub ir_string : IrModule → List ℕ → IrModule × IrValue
ir_string m bytes =
    let g : IrGlobal = record {
      name = fmt_name (codes ".str.") m.next_string;
      type = array_type (int_type 8) (length bytes + 1);
      init = none;
      str = some bytes;
      is_const = true;
      is_private = true;
      is_external = false;
    } in
    (
      record (global_append m g) {
        next_string = (m.next_string + 1) % 2 ^ 32;
        next_id = m.next_id + 1;
      },
      record { id = m.next_id; kind = global; type = ptr_type; ival = 0; name = g.name },
    )
