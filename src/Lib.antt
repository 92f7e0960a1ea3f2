-- ===== src/Lib.antt =====
-- The command-line tools of the cross-chain bridge (bin/python): the classes for accounts, assets,
-- issues, paths and bridges, the commands and transactions that are sent to a rippled server, the
-- parser of its configuration files, and the address books of the interactive program.
--
-- Base holds Python's integers, texts, dictionaries and exceptions, as far as the program uses them.
-- An exception is an `Exn` of Base.Exceptions, with the message of a ValueError, and code that may
-- raise returns a `Result`. An object that is changed in place is a record that the operation takes
-- and returns. A Python dictionary is a list of pairs in insertion order (Base.Dict), and a value
-- that is handed to `json.dumps` is a `Value` (Value.antt), which also has the Python objects that
-- `json.dumps` refuses, since the program puts some of them into its dictionaries.
-- An integer is a `ℤ` over the native numbers, a float is the text that `repr` prints for it, and
-- what the program computes with floats is a parameter, `Floats`, of the definitions that use it.
--
-- Common models bin/python/common.py: Account, Asset, Path, PathList, Issue and Bridge, their
-- constructors, operators and `to_cmd_obj`. The keyword arguments of a constructor are a record.
-- Transaction models bin/python/transaction.py: a transaction is a header, with the fields of the
-- base class, and a body, one constructor for each subclass (Types); its setters (Setters) and its
-- dictionary (Encode).
-- Command models bin/python/command.py: a command is its id and a body, one constructor for each
-- subclass (Types), the dictionary for a websocket (Websocket) and the list for the command line
-- (CommandLine). The class variable `next_cmd_id` is passed along.
-- Config models bin/python/config_file.py on the lines of a file; reading the file is left out.
-- Keys models the classes KeyManager and AssetAliases of bin/python/app.py; the table that pandas
-- prints is a parameter.
-- Session models the class App of bin/python/app.py over the websocket part of
-- bin/python/ripple_client.py: the server that answers is a parameter, and every method returns its
-- result with the program's state and the world, also where it raises. Session/Recording has a
-- server that keeps the messages, and sessions of requests; Session/Queries has the queries on balances, where a
-- data frame is the list of its rows, and QueriesLaws and BalanceLaws what they send and return.
-- Client models the retries and the subscriptions of bin/python/ripple_client.py; the shell and the
-- websockets are parameters.
-- Testnet models bin/python/testnet.py: the network with its clients, the set of running indexes and
-- the dictionary of processes, and its start and stop loops; the operating system is a parameter. Wait is
-- the wait for a validated ledger, whose two loops recurse on the rounds that are left, 600 as in the source.
-- Repl models class BridgeRepl of bin/python/interactive.py: its state, with the two apps and the
-- counter of ids that they share (State), what its commands do alike with the words of a line (Args),
-- the commands do_... (Pay, Accounts, Bridges, Transfers, Scenarios, Show, Batch), each a step that
-- goes on, returns or raises, and what all of them keep (Keeps): a property of the state that the calls of the
-- apps keep is kept by any session. Offers and Complete are the completions, HelpLocal and HelpBridge the
-- help texts. What cmd.Cmd makes of a line, the files, the servers and the
-- tables of pandas are parameters.
-- Log models bin/python/log_report.py: the search of log items for transaction hashes (Hashes), their
-- grouping (Group) and the ordering by date (Rekey), and bin/python/log_analyzer.py (Analyze), where what the
-- regular expressions make of a line is a parameter.
-- Setup models bin/python/create_config_files.py: the ports and the config indexes (Ports), the key pairs
-- and networks (Keypairs), the stanzas (Stanzas), the text of a config (CfgText) and the files that are
-- written (CfgFiles), where a text is the join of its lines; CfgLines, CfgRead, CfgHead and CfgClient read
-- such a text with the parser of Config. Of bin/python/sidechain.py it models the quorum, the settings
-- (Options) and the two set-up functions as requests to an App (Chains).
-- Tests runs definitions and theorems at concrete inputs.
--
-- The loops that are modelled run over lists, so no fuel is needed; the retry loop recurses on the
-- retries that are left, four as in the source, and the digits of an integer on accessibility. A batch
-- may load a batch: the commands run on the depth to which batches may nest, and one that nests deeper
-- raises, as Python does when its stack is full. The lines of a batch are those that its file has when
-- it is opened.
-- Not modelled: the interactive program's commands balance, account_info, server_info, federator_info,
-- subscribe, server_start and server_stop, so that Parser and the theorems on sessions are about lines of the
-- other commands; the tables of the log report, the helpers of the system tests, file and
-- process I/O, pandas, and the attestation server itself, which is written in C++.
pub mod Base
pub mod Value
pub mod Common
pub mod Transaction
pub mod Command
pub mod Config
pub mod Keys
pub mod Testnet
pub mod Client
pub mod Session
pub mod Log
pub mod Repl
pub mod Setup
pub mod Tests
