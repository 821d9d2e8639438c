-- ===== src/Lib.antt =====
-- limulus runs SAS-like data steps. A program is parsed into typed syntax; its expressions are
-- classified; the inputs of a step are prepared, where SET and MERGE put rows of several data sets
-- together, BY groups are flagged, and helper columns for LAG and LEAD are filled in; the prepared rows
-- go to a native runtime, and what it returns is handed back. Before that, the text of a program is
-- normalized, its blocks are validated against the catalog of data sets, and its helper columns and
-- output targets are planned. This library models these steps, the preparation of rows and the
-- classification of expressions, function by function.
--
-- The row stages (limulus/execution/rewrites.py) work on dicts, which are lists of pairs here, in
-- order of insertion, the first pair of a name being the one that counts.
--   Naming           limulus/naming.py: the keys under which names are compared.
--   Diagnostic       the diagnostics of the row stages and their builders.
--   Value            the values of a row, Python's `==` on them, `sortable_value` and the order of keys.
--   Rows/Resolve     `resolve_row_value`, and `_resolve_row_key` and `_resolve_row_value` of
--                    limulus/execution/input_preparation.py.
--   Rows/ByGroups    `annotate_by_group_flags`, and the flag columns of
--                    `_annotate_arrow_by_group_flags` of limulus/execution/input_preparation.py.
--   Rows/LagLead     `materialize_lag_lead_columns` and the functions it calls.
--   Rows/Sort        `build_row_sort_key`, and that the order of keys is asymmetric.
--   Rows/Sources     what SET and MERGE share: loading a source and the check for internal variables.
--   Rows/SetRows     `prepare_set_rows`.
--   Rows/MergeSources, Rows/MergeAlign, Rows/MergeRows
--                    `prepare_merge_rows`: its sources and checks, the alignment of rows by BY values
--                    or by position, and the whole; and the row choice of the Arrow selection plan of
--                    limulus/execution/input_preparation.py.
-- The functions that a caller hands over, such as the one that loads an input, are parameters. A step
-- that returns rows and a diagnostic returns an `Outcome`, rows or a diagnostic. Rows that are changed
-- in place are passed on as new rows, in the order of the writes. The third entry of a merged row,
-- which is always None, is left out.
--
-- The syntax stages work on expression trees.
--   Syntax/Source    limulus/syntax/models.py: source documents, their spans and positions.
--   Syntax/Expression limulus/syntax/models.py: the expression nodes, and what their constructors
--                    reject.
--   Syntax/Walk      limulus/expression_semantics.py: the level-order walk, the unfolding of
--                    concatenations and what is read from the nodes; and `_typed_calls` of
--                    limulus/execution/rewrites.py.
--   Planning/Specs, Planning/Columns, Planning/Ownership
--                    limulus/execution/rewrites.py: which calls of LAG, LEAD and SHIFT become helper
--                    columns, and under which names (`_typed_lag_lead_arguments`,
--                    `_collect_typed_lag_lead_specs` and the functions that they call).
-- The specs that Planning collects are what Rows/LagLead fills the columns from, once their defaults
-- are values.
--
-- The block stages work on the typed statements of a block.
--   Syntax/Options, Syntax/Statement
--                    limulus/syntax/models.py: data set options with their WHERE dialect, references,
--                    and the statements; and (Syntax/Statement/Valid) what their constructors reject.
--   Syntax/Normalization
--                    limulus/syntax/normalization.py: the analysis text, in which tabs become spaces.
--   Catalog          limulus/io.py: the names of data sets and the catalog that a block sees.
--   Validation       limulus/execution/validation.py: the diagnostics of a block, in the children
--                    Targets (output targets), Columns (what options and statements do to columns),
--                    References (what statements name) and Service (`validate_typed`).
--   Planning/Slots   limulus/execution/statement_expressions.py: the expressions of a block.
--   Planning/Helpers `RewritePlanner.build_typed_plan` of limulus/execution/rewrites.py.
--   Where            limulus/dataset_option_expressions.py: the evaluation of a WHERE option into a mask,
--                    and (Where/Meaning) what the option says of one row.
--   Outputs          limulus/execution/typed_output_planning.py: the output targets of a block, their
--                    options and the faults of these; and in Outputs/Shaping and Outputs/Projection,
--                    limulus/execution/output_handoff.py: the columns of a target.
-- Validation and Planning/Slots read the same statements: the names that a KEEP may use are those that
-- Validation/Columns collects, and the calls that Planning/Specs looks through are those of the slots.
--
-- In the block stages, the type of floats in options and their equality are parameters, as are the
-- columns of a data set and the making of a dictionary table, which ask the adapters, the internal names
-- of a prepared input, and `str.isalnum`.
-- The kernels of pyarrow are the parameter `Arrow`, and what pyarrow documents of them is `KernelLaws`.
-- Validation goes through sets of columns, where a name is resolved to the first column of its key; it
-- goes through them in the order of a list here. The loop of the analysis text takes fuel, one unit for
-- each turn; the length of the text is proved to be enough.
--
-- The two walks take fuel, one unit for each node they visit: the number of nodes of the tree, a
-- concatenation counted as the calls it unfolds into where it is unfolded. This is proved to be enough.
--
-- Prelude has the shared lemmas, Text the strings, Dict the dicts, and Tests the runs on small data.
--
-- Bounds of the model: letters change case as the ASCII ones do, the digits of a
-- numeric lexeme are the ASCII ones, and `isspace` has Python's table.
-- Floats, date-times, times and values of further classes are the parameter `Scalars`, and the laws of
-- floats and of equality are hypotheses. Python's containers find an object equal to itself before
-- they ask `==`, which matters for NaN as a BY value, and `float` of a huge integer raises; neither is
-- modelled. `list.sort` and `sorted` are insertion sort here. The two give the same if the order of the
-- keys is a strict weak order on the sorted items, which NaN among the BY values breaks; then `list.sort`
-- can arrange the rows in another way. A Decimal is a value of a further class, which no int or float
-- equals here. The row stages do not use the order of the members of a set, and a set is a list here.
--
-- Not modelled: the parser (limulus/syntax/program.py, limulus/syntax/expressions.py, the grammars), with
-- the reading of WHERE options; the paths of the input preparation that work on Arrow tables; the
-- rewriting of syntax (limulus/execution/syntax_rewrites.py); the native payload; the finalization of
-- outputs; session text, formats and host functions; adapters and bridges, which are input and output;
-- and the native runtime, which is another program.
pub mod Prelude
pub mod Text
pub mod Dict
pub mod Naming
pub mod Diagnostic
pub mod Value
pub mod Rows
pub mod Syntax
pub mod Catalog
pub mod Planning
pub mod Validation
pub mod Where
pub mod Outputs
pub mod Tests
