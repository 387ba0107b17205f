-- ===== src/CodeGen/Writers.antt =====
-- The names of the generated files and their texts, CodeGen/code_gen.cc.
use cpp_rpc.Prelude.{
  ℕ, zero, suc, ◌+◌, ◌/◌, ◌%◌, Option, none, some, List, [], ◌∷◌, ◌++◌, ◌==◌, ltb, if◌then◌else◌,
  length,
}
use cpp_rpc.Config.{Str, same_str}
use cpp_rpc.Config.Text.{str}
use cpp_rpc.CodeGen.{Arg, FuncDef}

-- what follows the last `/`, or all of it
unfoldable pub after_slash : Str → Option Str
after_slash [] = none
after_slash (c ∷ s) = elim (after_slash s) [
  | some t ↦ some t
  | none ↦ if c == 47 then some s else none
]

unfoldable pub get_filename : Str → Str
get_filename filename = elim (after_slash filename) [ some t ↦ t | none ↦ filename ]

module _ (src_file dst_dir : Str) where
  unfoldable pub get_proto_filename : Str
  get_proto_filename = dst_dir ++ (str "/" ++ (get_filename src_file ++ str ".proto"))

  unfoldable pub get_client_cc_filename : Str
  get_client_cc_filename = dst_dir ++ (str "/" ++ (get_filename src_file ++ str ".client.cc"))

  unfoldable pub get_server_cc_filename : Str
  get_server_cc_filename = dst_dir ++ (str "/" ++ (get_filename src_file ++ str ".server.cc"))

  pub get_makefile_filename : Str
  get_makefile_filename = dst_dir ++ (str "/" ++ str "Makefile")

unfoldable pub get_proto_type : Str → Str
get_proto_type type =
    if same_str type (str "int")
    then str "int32"
    else (if same_str type (str "long")
        then str "int32"
        else (if same_str type (str "long long") then str "int64" else type))

-- `std::to_string`; one round for every unit of the number is enough
unfoldable pub digits_of : ℕ → ℕ → Str
digits_of zero n = []
digits_of (suc fuel) n =
    if ltb n 10 then (48 + n) ∷ [] else digits_of fuel (n / 10) ++ (48 + n % 10) ∷ []

unfoldable pub to_string : ℕ → Str
to_string n = digits_of (suc n) n

abbrev pub endl : Str
endl = 10 ∷ []

-- the fields of a request's message, from number `j + 3` on
unfoldable pub proto_fields : ℕ → List Arg → Str
proto_fields j [] = []
proto_fields j ((type, name) ∷ args) =
    get_proto_type type
    ++ (str " " ++ (name ++ (str " = " ++ (to_string (j + 3) ++ (str ";" ++ endl)))))
    ++ proto_fields (suc j) args

unfoldable pub proto_message : FuncDef → Str
proto_message d =
    str "message RPC_"
    ++ (d.name ++ (str "_request{" ++ endl))
    ++ (str "string method = 1;" ++ endl)
    ++ (str "int32 query_id = 2;" ++ endl)
    ++ proto_fields 0 d.func_args
    ++ (str "}" ++ endl ++ endl)
    ++ (str "message RPC_" ++ (d.name ++ (str "_response{" ++ endl)))
    ++ (str "string method = 1;" ++ endl)
    ++ (str "int32 query_id = 2;" ++ endl)
    ++ (str "int32 state = 3;" ++ endl)
    ++ (get_proto_type d.return_arg.0 ++ (str " " ++ (d.return_arg.1 ++ (str " = 4;" ++ endl))))
    ++ (str "}" ++ endl ++ endl)

unfoldable pub proto_messages : List FuncDef → Str
proto_messages [] = []
proto_messages (d ∷ ds) = proto_message d ++ proto_messages ds

unfoldable pub write_proto : List FuncDef → Str
write_proto ds =
    (str "syntax = \"proto3\";" ++ endl)
    ++ (str "package RPC;" ++ endl ++ endl)
    ++ proto_messages ds

-- the names after a comma each
unfoldable pub comma_names : List Arg → Str
comma_names [] = []
comma_names ((type, name) ∷ args) = str ", " ++ (name ++ comma_names args)

unfoldable pub server_stubs : List FuncDef → Str
server_stubs [] = []
server_stubs (d ∷ ds) =
    str "RPC_SERVER"
    ++ (to_string (length d.func_args) ++ (str "(" ++ (d.return_arg.1 ++ (str ", " ++ d.name))))
    ++ comma_names d.func_args
    ++ (str ");" ++ endl)
    ++ server_stubs ds

unfoldable pub includes : Str → Str → Str → Str
includes template head_file proto_head_file =
    (str "#include \"" ++ (template ++ (str "\"" ++ endl)))
    ++ (str "#include \"" ++ (proto_head_file ++ (str ".pb.h\"" ++ endl)))
    ++ (str "#include \"" ++ (head_file ++ (str "\"" ++ endl ++ endl)))

unfoldable pub write_server_cc : Str → Str → List FuncDef → Str
write_server_cc head_file proto_head_file ds =
    includes (str "RPC_server_template.h") head_file proto_head_file ++ server_stubs ds

-- the parameters, a comma between them
unfoldable pub param_list : List Arg → Str
param_list [] = []
param_list ((type, name) ∷ []) = type ++ (str " " ++ name)
param_list ((type, name) ∷ arg ∷ args) =
    type ++ (str " " ++ (name ++ (str ", " ++ param_list (arg ∷ args))))

unfoldable pub client_stubs : List FuncDef → Str
client_stubs [] = []
client_stubs (d ∷ ds) =
    d.return_arg.0
    ++ (str " " ++ (d.name ++ (str "(" ++ (param_list d.func_args ++ (str ")" ++ endl)))))
    ++ (str "{" ++ endl)
    ++ (str "RPC_CLIENT"
        ++ (to_string (length d.func_args)
            ++ (str "(" ++ (d.return_arg.1 ++ (str ", " ++ d.name)))))
    ++ comma_names d.func_args
    ++ (str ");" ++ endl)
    ++ (str "}" ++ endl ++ endl)
    ++ client_stubs ds

unfoldable pub write_client_cc : Str → Str → List FuncDef → Str
write_client_cc head_file proto_head_file ds =
    includes (str "RPC_client_template.h") head_file proto_head_file ++ client_stubs ds

-- `write_makefile`, which nothing calls
unfoldable pub write_makefile : Str → Str → Str
write_makefile proto_head_file rpc_path =
    (str "CC=g++" ++ endl)
    ++ (str "CFLAGS=-std=c++11 -g" ++ endl)
    ++ (str "PROTOBUF_PATH=" ++ (rpc_path ++ (str "/protobuf" ++ endl)))
    ++ (str "PROTOC=$(PROTOBUF_PATH)/bin/protoc" ++ endl)
    ++ (str "INCLUDE_DIR=$(PROTOBUF_PATH)/include" ++ endl)
    ++ (str "LIB_DIR=$(PROTOBUF_PATH)/lib" ++ endl)
    ++ (str "RPC_CLIENT_INCLUDE_DIR=" ++ (rpc_path ++ (str "/RPC_client/include" ++ endl)))
    ++ (str "RPC_CLIENT_LIB_DIR=" ++ (rpc_path ++ (str "/RPC_client/lib" ++ endl)))
    ++ (str "RPC_SERVER_INCLUDE_DIR=" ++ (rpc_path ++ (str "/RPC_server/include" ++ endl)))
    ++ (str "RPC_SERVER_LIB_DIR=" ++ (rpc_path ++ (str "/RPC_server/lib" ++ endl)))
    ++ endl
    ++ (str "all://TODO add your target" ++ endl)
    ++ endl
    ++ (proto_head_file ++ (str ".pb.o:" ++ (proto_head_file ++ (str ".pb.cc" ++ endl))))
    ++ (str "\t$(CC) $(CFLAGS) -I$(INCLUDE_DIR) -c $^" ++ endl)
    ++ endl
    ++ (proto_head_file ++ (str ".client.o:" ++ (proto_head_file ++ (str ".client.cc" ++ endl))))
    ++ (str "\t$(CC) $(CFLAGS) -I$(RPC_CLIENT_INCLUDE_DIR) -I$(INCLUDE_DIR) -c $^" ++ endl)
    ++ endl
    ++ (proto_head_file ++ (str ".server.o:" ++ (proto_head_file ++ (str ".server.cc" ++ endl))))
    ++ (str "\t$(CC) $(CFLAGS) -I$(RPC_SERVER_INCLUDE_DIR) -I$(INCLUDE_DIR) -c $^" ++ endl)
    ++ endl
    ++ (proto_head_file ++ (str ".pb.cc :" ++ endl))
    ++ (str "\t$(PROTOC) " ++ (proto_head_file ++ (str ".proto --cpp_out=./" ++ endl)))
    ++ endl
    ++ (str "clean :" ++ endl)
    ++ (str "\trm -f *.o " ++ (proto_head_file ++ (str ".pb.*" ++ endl)))

-- the texts that `main` writes for a definition file: the names, and what goes into each
unfoldable pub generate : Str → Str → Str → List FuncDef → List (Str × Str)
generate src_file dst_dir head_file ds =
    (get_proto_filename src_file dst_dir, write_proto ds)
    ∷ (
      get_server_cc_filename src_file dst_dir,
      write_server_cc head_file (get_filename src_file) ds,
    )
    ∷ (
      get_client_cc_filename src_file dst_dir,
      write_client_cc head_file (get_filename src_file) ds,
    )
    ∷ []
