-- ===== src/Lib.antt =====
-- The core of apigear-cli: the model of an API that its modules describe (pkg/model), the rules that
-- say which files a template makes of it (pkg/spec/rules.go), and the generator that makes them
-- (pkg/gen/generator.go). A parser (pkg/idl, pkg/model/parser.go) fills a System; System.Validate
-- resolves and checks it; the generator computes the features that are wanted from the rules, and then
-- renders or copies each document of an enabled feature, once for each object that the scope matches.
--
-- Spec/Rules models pkg/spec/rules.go: RulesDoc with ComputeFeatures, walkRequired, FeatureByName,
-- FeatureNamesMap, the Validate methods, FindScopesByMatch and CheckEngines. The set of enabled names
-- is a list. walkRequired recurses to a depth that is bounded by the fuel, one more than the number of
-- features: a call goes deeper only with a feature that was not in the set, so this is enough, and the
-- result about all answers of ComputeFeatures covers it.
-- Model/Data, Lookup, Fqn and Resolve model the data, the lookups, the full names and the schemas of
-- pkg/model; Model/Validate the Validate methods; Model/Checksum and Model/Identify what is computed
-- after them; Model/Visit the visitors; Model/Words CheckReservedWords. Pointers down the tree are
-- values, stored references are the addresses of their objects, and pointers up the tree are arguments.
-- md5 is the parameter `digest`.
-- Gen models pkg/gen/generator.go over a World: the templates, the paths, the test for a file and the
-- output writer are its fields, and the disk is a value that the writer changes. Gen/Writer models the
-- writer of the file system, of pkg/gen/out.go and checksum.go, with IsFile and CopyFile of pkg/helper,
-- over the calls of os.
-- Tasks models pkg/tasks/manager.go and the part of task.go that it calls: a map of tasks, and the events
-- that are fired. A task's function is a parameter, and the metadata that it comes with is not nil.
-- Idl models pkg/idl: Tree the trees of ObjectApi.g4 without syntax errors, Listener the handlers of
-- listener.go on the state of the ObjectApiListener, Walk the depth-first order in which ANTLR's walker
-- enters and exits the rules, Parser the files of parser.go and helper.go. What the file system and the
-- generated parser answer are parameters. Build reads the module off a tree without the listener's state.
-- Signals models the handlers: pkg/helper/hook.go, and the emitters and the properties of a service of
-- pkg/sim. What a handler does is a parameter: a handler of Emit may call Any, and one of a service may
-- set its properties. Other methods, under their locks, are one step.
-- Spec/Solution models Validate of pkg/spec/soldoc.go and soltarget.go, where the file system and the
-- cache of templates are a World that does not change. Spec/Words models the reserved words of
-- pkg/spec/rkw/reserved.go, and Repos the ids of pkg/repos/repoid.go. strings.ToLower is a parameter.
-- Sol models parseInputs of pkg/sol/parse.go, which fills a system from the files of a target by Idl and
-- validates it by Model, and ReadSolutionDoc of read.go with the force flag of runner.go; what the YAML
-- and JSON libraries read is a parameter.
-- Base has the shared helpers: loops that stop at an error, maps with text keys, texts and numbers.
-- Tests applies the theorems at concrete inputs.
--
-- Loops over slices are structural recursion. Node ids are Go's uint of 64 bits, with its wrap-around;
-- counters of files are natural numbers, since no run comes near 2^63 files. Log lines, times, Meta and
-- the tags for JSON and YAML are not modelled, and neither are the commands (pkg/cmd), the network servers,
-- the JavaScript engine of the simulation, the template filters, the repositories of templates, and the
-- generated lexer and parser.
pub mod Base
pub mod Gen
pub mod Spec
pub mod Model
pub mod Idl
pub mod Sol
pub mod Signals
pub mod Repos
pub mod Tasks
mod Tests
