-- ===== src/Lib.antt =====
-- roscope resolves ROS 2 launch files statically: it walks launch files, performs their
-- substitutions and actions against a launch context, and finds, fetches and builds the packages
-- that they need from a lockfile.
--
-- Parts and files
--   Namespace   roscope/entities/utilities/namespace_utils.py and the namespace functions of
--               roscope/entities/helpers.py; `Types` has the second implementation, that of
--               roscope/types.py. Names are those of the source without the leading underscore.
--   Condition   the evaluator of REP-149 conditions in roscope/indexer.py: `Lex` is
--               `_tokenize_condition`, `Parse` the class `_ConditionParser`, `Grammar` the
--               expressions with their values that the evaluator is compared with.
--   Indexer     `resolve_dependencies` of roscope/indexer.py, and the lockfile of
--               roscope/types.py with its `remove_repo`; `Order` is `compute_build_order`.
--   Discovery   the generation of lockfiles in roscope/indexer.py: `Xml` is `parse_package_xml` on
--               the tree of the XML parser, `Git` the git commands and versions, `Packages` the
--               packages of a repository, and `Generate` is `generate_lockfile`.
--   Launch      the launch interpreter: `Context` is `LaunchContext` of
--               roscope/entities/launch_context.py, `Substitution` and `Perform` are
--               roscope/entities/substitutions, `Action` the actions of roscope/entities/actions
--               that write the context, with their conditions and groups, and `Conditions` the
--               classes of roscope/entities/conditions.
--   Connection  roscope/plugin.py, and `register_connection` and what
--               `apply_connection_plugin` does with an answer of the plugin, of
--               roscope/entities/launch_context.py.
--   Locator     `PackageLocator` of roscope/locator.py, with the search for launch files in `Files`;
--               `Found` and `Shares` are about its searches.
--   Rosdep      roscope/rosdep.py: the output of `rosdep resolve`, and in `Install` the calls of
--               rosdep, apt-get and pip with what the process remembers of them.
--   Fetcher     roscope/fetcher.py: `Git` has the git commands, `Repo` the checkout of one
--               repository, `Packages` the functions that fetch, and `Available` the function
--               `ensure_package_available`, which uses Locator and Rosdep.
--   Graph       the graph of a resolved launch file, roscope/visualizer/graph.py: the state of
--               `_GraphBuilder` with its ids and connections, `Tree` the resolved actions, `Remaps`
--               the edges to connections, `Walk` the handlers, and `Loads` the second pass and the
--               result; `Named` compares its names with those of Namespace.
--   Machine     the disk, the environment and the programs that Locator, Rosdep, Fetcher and
--               Discovery use.
--   Base        texts, dictionaries, results and tests that the parts share.
-- The interpreter joins namespaces with the functions of Namespace when it pushes one, and
-- Connection expands names by its `expand_connection_name`. Graph takes the families of connection
-- types from Connection. The fetcher reads the lockfile of Indexer, which Discovery generates. The
-- other parts meet only in the command line and the resolver, which are not modelled.
--
-- How state and errors are modelled
--   A text is the list of its characters' code points. A dictionary is an association list in
--   insertion order. A function that raises gives a `Result`; a method on the launch context is a
--   function from the context to a result and the context that it leaves, also where it raises.
--   The lists that the configurations hold are objects with an address, since the scopes share
--   them.
--
-- Fuel
--   The tokenizer has one unit of fuel for each character, and the parser three for each token and
--   three more. The dependency search has one for each root and one for each name that a package
--   of the lockfile puts on the queue. The build order has one for each package.
--
-- Parameters
--   The parser of XML and the reader of archives, the classes of characters beyond ASCII, the
--   environment of the process, MD5, the clock and the version in the metadata of a graph, the
--   reading of floating-point numbers, the dependencies that are read from disk, and what a plugin
--   returns.
--   `Machine` is what pathlib, os.environ and subprocess do, and `Fetcher.Laws` what is relied on of
--   git: that `rev-parse HEAD` and `status` print what they document, and which of the commands that
--   a fetch runs, with their arguments, leave the working tree or HEAD alone.
--
-- Not modelled
--   Logging, the messages of exceptions, threads and HTTP. The parsers of XML, YAML and
--   substitutions, and the import of Python launch files. The substitutions that run commands or
--   evaluate Python. The actions of nodes, includes and composable nodes before they are resolved,
--   the server and the cache of the visualizer, the scan of a source directory, and the YAML form of
--   lockfiles. The errors of a program that is there but cannot be started, of a package.xml that is
--   no UTF-8, and of metadata whose type is no text.
pub mod Base
pub mod Condition
pub mod Connection
pub mod Discovery
pub mod Fetcher
pub mod Graph
pub mod Indexer
pub mod Launch
pub mod Locator
pub mod Machine
pub mod Namespace
pub mod Rosdep
