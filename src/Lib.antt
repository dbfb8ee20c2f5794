-- ===== src/Lib.antt =====
-- vla.cpp serves vision-language-action models: a client sends camera images, a state and tokens, and
-- gets back a chunk of actions. This library follows a request through the server, the two parts of the
-- engine that decide what is computed and where (the quantized layers of FoldQuant, and the backend
-- that shares a graph between an accelerator and the CPU), and what starts the program: its options
-- and the download of a model. Beside it stand the second server of the repository, which chats with a
-- vision-language model, and the daemon that its tests use to run servers on other machines.
--
-- The parts and their files (paths from the repository's root):
--
-- Common: Boolean tests on numbers, lists measured by native numbers, signed integers, results with a
--   reason, counting loops over arrays that are functions from indices.
--
-- Serving, for src/serving/server.cpp and the messages of src/serving/vla.proto. Message holds the
--   messages, the configuration and the inputs of src/model.h. Decode is decode_image and
--   find_non_finite, with size_t arithmetic modulo 2 ^ 64 written out. Validate is every check between
--   the parsing of a request and predict, in the order of main; a refusal is a value that stands for
--   its text. Loop is the loop of main: a round is what poll, recv and the signal flag gave, step is the
--   round, run the loop. The socket's state is `pending`, the frames of the message that are still
--   unread while a reply is owed. What stb_image, protobuf, ZeroMQ and the model do is a parameter.
--
-- FoldQuant, for src/foldquant.h, src/foldquant_ref.h, src/foldquant_ref.cpp and fq_rot_block_for,
--   fill_specs, fq_set_heads, foldquant_check_backend, register_dequant and fq_dequant_rows of
--   src/foldquant.cpp. Pack is the nibbles, Layout the places of outputs and the rows of threads,
--   Rotate the block rotation, Activation one activation row (act_row), Gemm the integer GEMM with its
--   epilogues (fq_gemm_cpu), Node the entry points that make activation rows (fq_act_cpu,
--   fq_glu_act_cpu), Site what a site must satisfy to be used, Dequant the float weight that a site is
--   rebuilt as when the kernels are not used (register_dequant, fq_dequant_rows), with Rebuilt for
--   what the loader makes of it, Declare is fq_declare_linear and its Fused fq_declare_fused over the
--   loader, Policy the choice of kernels with env_flag of src/env_flag.h. Floats lists the float
--   operations that the code uses; they are a parameter, and only what IEEE 754 and C++ say of
--   conversions is asked of them, where a theorem needs it. The threads of a node are run one after
--   the other in any order: each output has one writer. The statistics and dumps behind VLA_FQ_STATS
--   and VLA_FQ_DUMP only print and are left out.
--
-- BackendFallback, for src/backend_fallback.cpp. Graph is what the code reads of ggml's tensors, by
--   address; Accepts is accel_runs; Place is the first half of fb_graph_compute, which says where each
--   node runs; Runs the second, which cuts the graph and runs it. run_on_cpu and run_on_accel are
--   parameters that change a machine. Reports and statistics only print and are left out.
--
-- HfFetch, for src/serving/hf_fetch.h. Names is hf_token_ok, Names/Match is hf_match, Resolve is
--   hf_resolve, whose result carries the commands that reach the shell. The file system, its paths and
--   the shell are a Host.
--
-- Options, for src/options.cpp: parse_arg and resolve_num_steps, and in Json the merging of a policy's
--   config.json. The number reader, the environment and the JSON library are parameters.
--
-- Vlm, for src/serving/vlm-server.cpp, src/serving/vlm.proto and Engine::chat of src/vlm/engine.cpp. Utf8
--   is utf8_complete_prefix, Envelope the receiving of one message's frames, Request the checks of a
--   request and the sampling parameters, Chat is Engine::chat with its decode loop, Serve the loop of
--   main and what it sends. What llama.cpp, stb_image, protobuf and ZeroMQ do is a parameter.
--
-- CApi, for src/vla_c_api.cpp and include/vla.h: loading and freeing a model, a prediction, the vision
--   tower alone and the buffers that are handed over. The engine may throw, and the C++ runtime may run
--   out of memory. Outcomes says what a caller gets.
--
-- Scratch, for src/scratch_ctx.h: scratch_ctx and graph_cache. ggml's objects are numbers; Held and Cache
--   say which of them are live.
--
-- CiAgent, for ci/agent/agent.cpp and its messages. Process is run_capture, spawn_detached and
--   kill_group, Archive is extract_and_prune with is_protected, Handle is handle and the request loop
--   with g_spawned. The operating system is an Os: each call gives a result and the machine after it. A
--   child that never ends leaves the agent waiting, which is the error `hung`.
--
-- Gguf, for src/gguf_reader.h. A file is its index, which ggml's gguf reads, and its bytes; the
--   conversions of rows between floats and bytes are ggml's. A reading past the end of the file is
--   none. Fetched says what fetch_rows_f32 gives.
--
-- Loader, for WeightLoader of src/loader.cpp and src/loader.h, over the reader of Gguf. A declared
--   tensor is its place in the weight context; ggml (row sizes, dimensions, room, quantization) is a
--   parameter. Loader is declare and the padding maps, Fuse is fuse and quant, Upload is read_resident
--   and upload, whose result carries the writes to the backend. Kept and Shapes are invariants over
--   any sequence of declarations, Padded is the padded bytes, Sized, Exact, Quants and Whole the sizes
--   of the writes.
--
-- Prompt, for src/modules/prompt.cpp: build_prompt, fetch_embeds and init_noise. Slots says which
--   prompts are built, Embedded which embeddings are fetched.
--
-- Vision, for src/modules/preprocess.h: image_to_chw and preprocess_image_chw, whose planes are in
--   Planes, and preprocess_image_patches, in Patches. A buffer is a function from indices.
--
-- Tokenizer, for src/tokenizer.cpp with SentencePiece: prompt_text, and in Encode what tokenize_prompt
--   reads of the GGUF file. SentencePiece's model and the tests on floats are parameters. Tokens is the
--   padding and the bins of a state, Prompt the lines of a prompt, Encode/Fits the number of tokens.
--
-- ModelLoad, for src/model.cpp with Arch of src/arch.h: the detection of an architecture from a GGUF or
--   safetensors file, which loads are refused, and the two flags of the process that a model sets again
--   before each prediction. What an architecture does is a parameter, which may read and change all of
--   the process, also the flags that no model sets. Loaded says which models are loaded.
--
-- Fuel: rot_loop has the nominal size, which halves in every round; fwht_row has the row's width, since
--   every round takes a block; extend and run_loop have the number of nodes, since every round takes
--   one; producer has a number that is enough when it exceeds the rank of the tensor. Each is enough by
--   a theorem of the library.
--
-- decode_loop has the number of tokens that may be generated, and the polls of kill_group their count:
--   these are the bounds of the loops in the code.
--
-- Not modelled: the model architectures, layers and modules (graphs of ggml calls), the device kernels,
--   the parsing of a FoldQuant module and the link
--   prefetch, the command line tools, and all third-party code. Input and output,
--   log lines and the warm-up are left out of the parts that are modelled.
mod Common
pub mod Serving
pub mod FoldQuant
pub mod BackendFallback
pub mod HfFetch
pub mod Options
pub mod CiAgent
pub mod Vlm
pub mod CApi
pub mod Scratch
pub mod Gguf
pub mod Tokenizer
pub mod ModelLoad
pub mod Prompt
pub mod Vision
pub mod Loader
