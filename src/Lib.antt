-- ===== src/Lib.antt =====
-- A model of oj-backend, an online judge: users send programs over HTTP, the server queues database
-- and judging events, workers run the programs against test cases under limits, and verdicts are
-- stored. The modules follow the parts of the repository.
--
-- Judging. judge/src/Judger.cpp (Judge/Judger) prepares a program with the compiler and compares the
-- output of a run; judge/src/utilities (Judge/Status) joins the verdicts of the tests, Judge/Report
-- prints them; Judge/Commands has the command lines of judge/src/compilers and of the actuators.
-- judge/src/actuators/Actuator.cpp runs the program, and has a module for each of its parts:
-- Judge/System is initSystem, Judge/Process the pipes, the fork and the input as calls of the
-- system, Judge/Child what the child does before exec, Judge/Cgroup the control group and its
-- limits, Judge/Monitor the polling loop of monitorChild, Judge/Outcome the figures of the group and
-- the verdict on how the process ended, Judge/Cleanup the removal of the group. Judge/Execution puts
-- them together, up to the verdict on one test. What the system answers to a call is an argument;
-- poll, read and waitpid answer with a list of rounds, so that the loops run by structural
-- recursion, and the result `none` says that the loop still runs when the rounds are over, or that the
-- last, blocking waitpid does not return; the theorems on ends say which rounds are enough. The three attempts of rmdir are recursion on the
-- attempts that are left, the walk through the groups recursion on their tree. Judge/Verdict,
-- Judge/Comparison, Judge/Reasons, Judge/Deadline, Judge/Streams, Judge/Output and the children of
-- the other modules are about them; Judge/Verdict/Unordered takes the statuses of the tests as a
-- set, the quotient of their lists.
--
-- Core. core/include/Types.hpp and core/src/Types.cpp are Core/Enums, Core/Types and Core/Serial,
-- core/include/JsonSerializable.hpp is Core/Serializable; nlohmann::json is the parameter JsonLib
-- of Core/Json with its laws, Core/FileWriter core/src/FileWriter.cpp. The queue of
-- core/include/Queue.hpp is Core/Queue, the thread pool of core/src/ThreadPool.cpp
-- Core/ThreadPool; a call under a mutex is one step, and the theorems hold for every sequence of
-- steps. Core/Logger is core/src/Logger.cpp with what the logging library keeps, Core/Configurator
-- core/src/Configurator.cpp over the INI library.
--
-- Database. database/src/DbWorker.cpp is Database/Worker, database/src/DbPool.cpp Database/Pool. The
-- driver's answers are an argument. app/src/DbManager.cpp (App/DbManager) is modelled by the calls
-- of the pool that it makes, App/DbManager/Threads has threads that make them on one pool.
--
-- Application. App/World is what the server works with and does not implement: Redis, the database
-- server, JSON web tokens, password hashing, identifiers, the clock. App/Monad is the style in which
-- the methods are written, as state passing with exceptions. App/Redis is app/src/RedisManager.cpp,
-- App/Messages its messages, App/Settings what its constructor and those of the managers and the
-- pool read from the configuration, App/Operations app/src/dbop, App/Token
-- app/src/services/TokenManager.cpp, with a table of sessions to compare it with in App/Token/Table,
-- App/Services and its children Auth, Problem and Submission the services of app/src/services.
-- App/Subscriber and App/JudgeTask are the two tasks of app/src/Application.cpp, one that runs the
-- statements which the services publish, one that judges a submission, with the judge itself behind
-- it in App/JudgeTask/Runs, up to the status that is stored in App/JudgeTask/Stored; App/Api holds
-- the HTTP handlers of app/src/api. A request goes through a handler, a service, the token manager
-- and Redis, and its writes reach the database through the subscriber. App/Startup is the
-- construction of the server in app/src/Application.cpp with its routes and main.cpp, App/Polling
-- the loop of Application::run that feeds the subscriber.
--
-- Exceptions/Result holds the exceptions of exceptions/include as values, Exceptions/Texts their
-- texts, and Exceptions/Files the checks of exceptions/src/FileException.cpp. Numbers are natural
-- numbers, with the wrap-around of fixed-width types written out; floating-point values are a type
-- parameter. Not modelled: what a log sink writes, sockets and the HTTP library, how much of a file
-- Boost.Asio has written when core/src/FileWriter.cpp (Core/FileWriter) is done with it, the order
-- in which the parts of the server are destroyed, a statement on a worker that has no connection,
-- and an fs::filesystem_error that is thrown inside a check of a path.
mod Prelude
pub mod Exceptions
pub mod Core
pub mod Judge
pub mod Database
pub mod App
mod Tests
